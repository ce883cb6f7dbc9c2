-- ===== src/File.antt =====
-- xv6-public/file.c: the table of open files and its reference counts. A `struct file *` is an index
-- into `ftable.file`.
pub mod Counts
pub mod Uses
mod Tests
use ele3021_operating_system.Base.{
  ℕ, zero, suc, ◌+◌, ◌-◌, Bool, true, false, List, [], ◌∷◌, Option, none, some, get_elem?, ltb,
  ◌==◌, if◌then◌else◌,
}
use ele3021_operating_system.Base.Find.{find_index, modify}

-- The field `type` of `struct file`.
pub data FileType : Type 0 where
  fd_none fd_pipe fd_inode : FileType

-- `struct file`; its pipe and its inode are addresses. `ref` is an `int`, which no function takes
-- below 0.
pub record File : Type 0 where
  pub kind : FileType
  pub ref : ℕ
  pub readable : Bool
  pub writable : Bool
  pub pipe : ℕ
  pub ip : ℕ
  pub off : ℕ

abbrev pub set_ref : ℕ → File → File
set_ref ref f = record f { ref = ref }

-- `filealloc()`: the index of the file, and the table after it.
unfoldable pub filealloc : List File → Option (ℕ × List File)
filealloc fs = elim (find_index (λ f. f.ref == 0) fs) [
  | none ↦ none
  | some i ↦ some (i, modify i (set_ref 1) fs)
]

-- `filedup(f)` of the file `i`; `none` is the panic.
unfoldable pub filedup : ℕ → List File → Option (List File)
filedup i fs = elim (get_elem? fs i) [
  | none ↦ none
  | some f ↦ if ltb f.ref 1 then none else some (modify i (λ f. set_ref (f.ref + 1) f) fs)
]

-- What the last `fileclose` of a file goes on to do: `pipeclose(pipe, writable)`, or `iput(ip)` in an
-- operation of the log, or nothing.
pub data Close : Type 0 where
  nothing : Close
  closes_pipe : ℕ → Bool → Close
  puts_inode : ℕ → Close

abbrev pub last_close : File → Close
last_close f = elim f.kind [
  | fd_none ↦ nothing
  | fd_pipe ↦ closes_pipe f.pipe f.writable
  | fd_inode ↦ puts_inode f.ip
]

-- The entry that the last `fileclose` leaves.
abbrev pub clear_file : File → File
clear_file f = record f { ref = 0; kind = fd_none }

-- `fileclose(f)` of the file `i`; `none` is the panic. The first result is `none` while the file is
-- still open elsewhere.
unfoldable pub fileclose : ℕ → List File → Option (Option Close × List File)
fileclose i fs = elim (get_elem? fs i) [
  | none ↦ none
  | some f ↦
      if ltb f.ref 1
      then none
      else (if ltb 0 (f.ref - 1)
          then some (none, modify i (λ f. set_ref (f.ref - 1) f) fs)
          else some (some (last_close f), modify i clear_file fs))
]
