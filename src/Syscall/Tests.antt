-- ===== src/Syscall/Tests.antt =====
-- A process with two descriptors of a pipe and 0x4000 bytes of memory, all 0 but for one.
use ele3021_operating_system.Base.{
  ℕ, zero, suc, ◌+◌, ◌≤◌, ◌<◌, ◌≡◌, ◌≢◌, ◌↔◌, ◌⊎◌, refl, true, false, List, [], ◌∷◌, ◌++◌, Option,
  none, some, arith, get_elem?, set, ◌==◌, if◌then◌else◌,
}
use ele3021_operating_system.Base.Int.{pos}
use ele3021_operating_system.File.{File, fd_pipe, Close, last_close}
use ele3021_operating_system.File.Counts.{IsCounted, count}
use ele3021_operating_system.Proc.{Proc}
use ele3021_operating_system.Proc.Samples.{blank}
use ele3021_operating_system.Syscall.{word_at, fetchstr, argptr, argfd, sys_dup, sys_close}
use ele3021_operating_system.Syscall.Bounds.{arg_addr, Inside, fetchstr_lem, argptr_lem}
use ele3021_operating_system.Syscall.Counts.{IsOpen, held}
use ele3021_operating_system.Syscall.Calls.{sys_dup_lem, sys_close_lem}

abbrev caller : Proc
caller = record blank {
  sz = 0x4000;
  tf = record { eax = 0; eip = 0; esp = 0x3ff0; others = [] };
  ofile = some 0 ∷ none ∷ some 0 ∷ [];
}

-- The first argument is 0, the second 0x3f00.
abbrev bytes : ℕ → ℕ
bytes a = if a == 0x3ff9 then 0x3f else 0

abbrev pipe_end : File
pipe_end = record {
  kind = fd_pipe;
  ref = 3;
  readable = true;
  writable = false;
  pipe = 4096;
  ip = 0;
  off = 0;
}

abbrev files : List File
files = pipe_end ∷ []

caller-IsOpen : IsOpen caller (0 ∷ []) files
caller-IsOpen = record { counted = counted; named = named }
  where
    counted : IsCounted files (held caller.ofile ++ (0 ∷ []))
    counted zero f h = three h
      where
        three : {f : File} → some pipe_end ≡ some f → f.ref ≡ 3
        three e = cc
    counted (suc i) f h = cc

    first : {o : Option ℕ} (f : ℕ) → o ≡ some 0 → some o ≡ some (some f) → f < 1
    first f e q = let z : 0 ≡ f = ground (arith, e, q) in omega arith

    named : (fd f : ℕ) → get_elem? caller.ofile fd ≡ some (some f) → f < 1
    named zero f h = first f refl h
    named (suc zero) f h = ground (arith, h)
    named (suc (suc zero)) f h = first f refl h
    named (suc (suc (suc i))) f h = cc

sys_dup_lem_example :
    (ret : Option ℕ) × (cur' : Proc) × (fs' : List File) × (sys_dup caller bytes files
      ≡ some (ret, cur', fs'))
    × IsOpen cur' (0 ∷ []) fs'
    × (((ret ≡ none) × (cur' ≡ caller) × (fs' ≡ files))
        ⊎ ((fd new f : ℕ) × (argfd 0 caller bytes ≡ some (fd, f))
            × (ret ≡ some new)
            × (get_elem? caller.ofile new ≡ some none)
            × (cur' ≡ record caller { ofile = set caller.ofile new (some f) })))
sys_dup_lem_example = sys_dup_lem caller bytes (0 ∷ []) files caller-IsOpen

sys_close_lem_example :
    (ret : Option (Option Close)) × (cur' : Proc) × (fs' : List File) × (sys_close caller bytes
        files
      ≡ some (ret, cur', fs'))
    × IsOpen cur' (0 ∷ []) fs'
    × (((ret ≡ none) × (cur' ≡ caller) × (fs' ≡ files))
        ⊎ ((fd f : ℕ) × (file : File) × (argfd 0 caller bytes ≡ some (fd, f))
            × (get_elem? files f ≡ some file)
            × (cur' ≡ record caller { ofile = set caller.ofile fd none })
            × (((count f (held caller.ofile ++ (0 ∷ [])) ≡ 1)
                  × (ret ≡ some (some (last_close file))))
                ⊎ ((1 < count f (held caller.ofile ++ (0 ∷ []))) × (ret ≡ some none)))))
sys_close_lem_example = sys_close_lem caller bytes (0 ∷ []) files caller-IsOpen

argptr_lem_example : (argptr 1 (pos 0x100) caller bytes ≡ some 0x3f00) ↔ (
    (arg_addr 1 caller + 4 ≤ caller.sz)
    × (0x3f00 ≡ word_at bytes (arg_addr 1 caller))
    × Inside 0x3f00 (pos 0x100) caller)
argptr_lem_example = argptr_lem 1 0x3f00 (pos 0x100) caller bytes (omega arith) (omega arith)

fetchstr_lem_example : (fetchstr 0x3ff9 caller bytes ≡ some 1) ↔ (
    (0x3ff9 + 1 < caller.sz)
    × (bytes (0x3ff9 + 1) ≡ 0)
    × ((i : ℕ) → i < 1 → bytes (0x3ff9 + i) ≢ 0))
fetchstr_lem_example = fetchstr_lem 0x3ff9 1 caller bytes
