-- ===== src/Dir/Tests.antt =====
-- A small tree of directories: "bin" and "usr" in the root, and "sh" in "bin".
use ele3021_operating_system.Base.{
  ℕ, zero, suc, ◌≡◌, ◌≢◌, ◌⊎◌, refl, true, false, List, [], ◌∷◌, Option, none, some, arith,
}
use ele3021_operating_system.Base.Find.{find_index}
use ele3021_operating_system.Base.Int.{◌-ℤ◌}
use ele3021_operating_system.Dir.{
  Dirent, strncmp, dirlookup, dirlink, skip_slashes, span, skipelem, namex_from, namex, found,
}
use ele3021_operating_system.Dir.Entries.{key, dirlink_lem}
use ele3021_operating_system.Dir.Elements.{elements}
use ele3021_operating_system.Dir.Paths.{walk, namex_lem}

abbrev bin : List ℕ
bin = 98 ∷ 105 ∷ 110 ∷ []

abbrev usr : List ℕ
usr = 117 ∷ 115 ∷ 114 ∷ []

abbrev sh : List ℕ
sh = 115 ∷ 104 ∷ []

abbrev root_dir : List Dirent
root_dir =
    record { inum = 5; name = bin }
    ∷ record { inum = 0; name = [] }
    ∷ record { inum = 6; name = usr }
    ∷ []

abbrev disk : ℕ → Option (List Dirent)
disk (suc zero) = some root_dir
disk (suc (suc (suc (suc (suc zero))))) = some (record { inum = 7; name = sh } ∷ [])
disk _ = none

-- "//bin/sh"
abbrev path : List ℕ
path = 47 ∷ 47 ∷ 98 ∷ 105 ∷ 110 ∷ 47 ∷ 115 ∷ 104 ∷ []

namex_run : namex 9 disk false 6 path ≡ found 7
unfolding namex namex_from skipelem skip_slashes span dirlookup find_index strncmp ◌-ℤ◌
namex_run = refl

dirlink_lem_example :
    ((dirlink sh 9 root_dir ≡ none) × ((ip : ℕ) × (dirlookup sh root_dir ≡ some ip)))
    ⊎ ((des' : List Dirent) × (dirlink sh 9 root_dir ≡ some des')
        × (dirlookup sh root_dir ≡ none)
        × (dirlookup sh des' ≡ some 9)
        × ((other : List ℕ) → key other ≢ key sh → dirlookup other des' ≡ dirlookup other root_dir))
dirlink_lem_example = dirlink_lem sh 9 root_dir (omega arith) (omega arith)

namex_lem_example : namex 9 disk true 6 path ≡ walk disk true 1 (elements path)
namex_lem_example =
    namex_lem 9 disk true 6 path (nz, (nz, (nz, (nz, (nz, (nz, (nz, (nz, tt)))))))) (omega arith)
  where
    nz : {n : ℕ} → suc n ≢ 0
    nz e = absurd (omega arith)
