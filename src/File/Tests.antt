-- ===== src/File/Tests.antt =====
-- A table of two files: a pipe with two handles, and one that is free.
use ele3021_operating_system.Base.{
  ℕ, zero, suc, ◌≡◌, ◌⊎◌, ◌<◌, refl, true, false, List, [], ◌∷◌, Option, none, some, arith,
  get_elem?,
}
use ele3021_operating_system.File.{
  File, fd_none, fd_pipe, filealloc, filedup, Close, closes_pipe, fileclose,
}
use ele3021_operating_system.Base.Find.{find_index, modify}
use ele3021_operating_system.File.Uses.{Uses, Uses-IsCounted}
use ele3021_operating_system.File.Counts.{IsCounted, remove, count, fileclose_lem}

abbrev pipe_end : File
pipe_end = record {
  kind = fd_pipe;
  ref = 2;
  readable = true;
  writable = false;
  pipe = 4096;
  ip = 0;
  off = 0;
}

abbrev no_file : File
no_file = record pipe_end { kind = fd_none; ref = 0 }

abbrev files : List File
files = pipe_end ∷ no_file ∷ []

files-IsCounted : IsCounted files (0 ∷ 0 ∷ [])
files-IsCounted zero f h = sym_ref h
  where
    sym_ref : {f : File} → some pipe_end ≡ some f → f.ref ≡ 2
    sym_ref e = cc
files-IsCounted (suc zero) f h = free h
  where
    free : {f : File} → some no_file ≡ some f → f.ref ≡ 0
    free e = cc
files-IsCounted (suc (suc i)) f h = cc

fileclose_lem_example :
    (last : Option Close) × (fs' : List File) × (fileclose 0 files ≡ some (last, fs'))
    × IsCounted fs' (remove 0 (0 ∷ 0 ∷ []))
    × (((count 0 (0 ∷ 0 ∷ []) ≡ 1) × (last ≡ some (closes_pipe 4096 false)))
        ⊎ ((1 < count 0 (0 ∷ 0 ∷ [])) × (last ≡ none)))
fileclose_lem_example =
    fileclose_lem 0 pipe_end files (0 ∷ 0 ∷ []) files-IsCounted refl (omega arith)

abbrev closed_files : List File
closed_files = no_file ∷ no_file ∷ []

abbrev opened_files : List File
opened_files = record no_file { ref = 1 } ∷ no_file ∷ []

abbrev dupped_files : List File
dupped_files = record no_file { ref = 2 } ∷ no_file ∷ []

-- A file is opened, its handle duplicated, and one of the two closed.
used : Uses opened_files (0 ∷ [])
unfolding filealloc filedup fileclose find_index modify
used = Uses.closes 0 dupped_files (0 ∷ 0 ∷ []) (omega arith) refl (
    Uses.dups 0 opened_files (0 ∷ []) (omega arith) refl
      (Uses.opens 0 closed_files [] refl (Uses.boots unheld)))
  where
    unheld : (i : ℕ) (f : File) → get_elem? closed_files i ≡ some f → f.ref ≡ 0
    unheld zero f h = free h
      where
        free : {f : File} → some no_file ≡ some f → f.ref ≡ 0
        free e = cc
    unheld (suc zero) f h = free h
      where
        free : {f : File} → some no_file ≡ some f → f.ref ≡ 0
        free e = cc
    unheld (suc (suc i)) f h = cc

Uses-IsCounted_example : IsCounted opened_files (0 ∷ [])
Uses-IsCounted_example = Uses-IsCounted used
