-- ===== src/Dir.antt =====
-- Directories and path names: xv6-public/fs.c, and the string functions of xv6-public/string.c that
-- they use. A C string is the list of its bytes; past the end of a list there are NUL bytes.
--
-- A directory is the list of its entries, which `readi` and `writei` move one at a time.
pub mod Names
pub mod Entries
pub mod Elements
pub mod Paths
mod Tests
use ele3021_operating_system.Base.{
  ℕ, zero, suc, ◌%◌, ◌^◌, Bool, true, false, not, ◌&&◌, List, [], ◌∷◌, ◌++◌, Option, none, some,
  ◌==◌, if◌then◌else◌, replicate, set, take, get_elem?,
}
use ele3021_operating_system.Base.Find.{find_index}
use ele3021_operating_system.Base.Int.{ℤ, pos, ◌-ℤ◌, is_zero}

-- DIRSIZ
abbrev pub dirsiz : ℕ
dirsiz = 14

-- `*s`
abbrev pub head : List ℕ → ℕ
head [] = 0
head (x ∷ xs) = x

-- `s + 1`
abbrev pub tail : List ℕ → List ℕ
tail [] = []
tail (x ∷ xs) = xs

-- `strncmp(p, q, n)`
unfoldable pub strncmp : ℕ → List ℕ → List ℕ → ℤ
strncmp zero p q = pos 0
strncmp (suc n) p q =
    let rest = strncmp n (tail p) (tail q) in
    if not (head p == 0) && head p == head q then rest else pos (head p) -ℤ pos (head q)

-- The bytes that `strncpy(s, t, n)` writes to `s`.
unfoldable pub strncpy : ℕ → List ℕ → List ℕ
strncpy zero t = []
strncpy (suc n) t =
    let rest = strncpy n (tail t) in if head t == 0 then 0 ∷ replicate n 0 else head t ∷ rest

-- `namecmp(s, t)`
abbrev pub namecmp : List ℕ → List ℕ → ℤ
namecmp s t = strncmp dirsiz s t

-- `struct dirent`
pub record Dirent : Type 0 where
  pub inum : ℕ
  pub name : List ℕ

abbrev pub is_entry : List ℕ → Dirent → Bool
is_entry name de = not (de.inum == 0) && is_zero (namecmp name de.name)

abbrev pub inum_at : Option ℕ → List Dirent → Option ℕ
inum_at none des = none
inum_at (some i) des = elim (get_elem? des i) [ none ↦ none | some de ↦ some de.inum ]

-- `dirlookup(dp, name, 0)`: the number of the inode of the first entry in use with the name.
unfoldable pub dirlookup : List ℕ → List Dirent → Option ℕ
dirlookup name des = inum_at (find_index (is_entry name) des) des

-- The entry that `dirlink` writes; `inum` is a `ushort`.
abbrev pub entry_of : List ℕ → ℕ → Dirent
entry_of name inum = record { inum = inum % 2 ^ 16; name = strncpy dirsiz name }

abbrev pub write_at : Option ℕ → Dirent → List Dirent → List Dirent
write_at none de des = des ++ (de ∷ [])
write_at (some i) de des = set des i de

-- The entry goes to the first empty place, or to the end.
unfoldable pub place : Dirent → List Dirent → List Dirent
place de des = write_at (find_index (λ d. d.inum == 0) des) de des

-- `dirlink(dp, name, inum)`; `none` is -1. The panics when `readi` or `writei` comes up short are not
-- modelled.
unfoldable pub dirlink : List ℕ → ℕ → List Dirent → Option (List Dirent)
dirlink name inum des = elim (dirlookup name des) [
  | some ip ↦ none
  | none ↦ some (place (entry_of name inum) des)
]

-- '/'
abbrev pub slash : ℕ
slash = 47

-- `while(*path == '/') path++;`
unfoldable pub skip_slashes : List ℕ → List ℕ
skip_slashes [] = []
skip_slashes (x ∷ path) = let rest = skip_slashes path in if x == slash then rest else x ∷ path

-- `while(*path != '/' && *path != 0) path++;`: what is passed, and what is left.
unfoldable pub span : List ℕ → List ℕ × List ℕ
span [] = ([], [])
span (x ∷ path) =
    let (elem, rest) = span path in if x == slash then ([], x ∷ path) else (x ∷ elem, rest)

-- The string that `skipelem` leaves in `name`.
abbrev pub cut_name : List ℕ → List ℕ
cut_name elem = take dirsiz elem

-- `skipelem` once the slashes are passed.
abbrev pub take_elem : List ℕ → Option (List ℕ × List ℕ)
take_elem [] = none
take_elem (x ∷ path) = let (elem, rest) = span (x ∷ path) in some (cut_name elem, skip_slashes rest)

-- `skipelem(path, name)`: the name and the rest of the path; `none` is 0.
unfoldable pub skipelem : List ℕ → Option (List ℕ × List ℕ)
skipelem path = take_elem (skip_slashes path)

-- What `namex` comes to; `running` is the lack of fuel.
pub data Found : Type 0 where
  running : Found
  missing : Found
  parent : (ip : ℕ) (name : List ℕ) → Found
  found : (ip : ℕ) → Found

-- A round of the loop of `namex` for the element `name` at the inode `ip`, before `rest`; `entries`
-- is what the disk has for a directory. `go` is the next round.
abbrev pub enter : (ℕ → Option (List Dirent)) → Bool → ℕ → List ℕ → List ℕ → (ℕ → Found) → Found
enter entries nameiparent ip name rest go = elim (entries ip) [
  | none ↦ missing
  | some des ↦
      if nameiparent && head rest == 0
      then parent ip name
      else elim (dirlookup name des) [ none ↦ missing | some next ↦ go next ]
]

-- The loop of `namex`.
unfoldable pub namex_from : ℕ → (ℕ → Option (List Dirent)) → Bool → ℕ → List ℕ → Found
namex_from zero entries nameiparent ip path = running
namex_from (suc fuel) entries nameiparent ip path = elim (skipelem path) [
  | none ↦ if nameiparent then missing else found ip
  | some r ↦
      enter entries nameiparent ip r.0 r.1 (λ next. namex_from fuel entries nameiparent next r.1)
]

-- `namex(path, nameiparent, name)` of a process in the directory `cwd`; ROOTINO is 1.
unfoldable pub namex : ℕ → (ℕ → Option (List Dirent)) → Bool → ℕ → List ℕ → Found
namex fuel entries nameiparent cwd path =
    namex_from fuel entries nameiparent (if head path == slash then 1 else cwd) path
