-- ===== src/Pipe/Tests.antt =====
-- A pipe that wraps around.
use ele3021_operating_system.Base.{
  ℕ, ◌≡◌, refl, true, false, [], ◌∷◌, replicate, length-replicate, arith,
}
use ele3021_operating_system.Pipe.{Pipe, pipewrite, piperead, returns}
use ele3021_operating_system.Pipe.Bytes.{IsPipe}
use ele3021_operating_system.Pipe.Writing.{Writes, pipewrite_lem}
use ele3021_operating_system.Pipe.Reading.{Reads, piperead_lem, piperead-pipewrite}

-- Both counters stand before the last cell.
abbrev at_end : Pipe
at_end = record {
  cells = replicate 512 0;
  nread = 511;
  nwrite = 511;
  readopen = true;
  writeopen = true;
}

abbrev nearly_full : Pipe
nearly_full = record at_end { nwrite = 1022 }

at_end-IsPipe : IsPipe at_end
at_end-IsPipe = record {
  cells = length-replicate {A = ℕ} 512 0;
  nread = omega arith;
  nwrite = omega arith;
  small = omega arith;
}

nearly_full-IsPipe : IsPipe nearly_full
nearly_full-IsPipe = record {
  cells = length-replicate {A = ℕ} 512 0;
  nread = omega arith;
  nwrite = omega arith;
  small = omega arith;
}

pipewrite_lem_example :
    Writes false nearly_full (7 ∷ 8 ∷ []) (pipewrite false nearly_full (7 ∷ 8 ∷ []))
pipewrite_lem_example = pipewrite_lem false nearly_full (7 ∷ 8 ∷ []) nearly_full-IsPipe

piperead_lem_example : Reads false nearly_full 3 (piperead false nearly_full 3)
piperead_lem_example = piperead_lem false nearly_full 3 nearly_full-IsPipe

piperead-pipewrite_example :
    (p' p'' : Pipe) × (pipewrite false at_end (7 ∷ 8 ∷ []) ≡ returns p')
    × (piperead false p' 2 ≡ returns (7 ∷ 8 ∷ []) p'')
piperead-pipewrite_example =
    piperead-pipewrite false false at_end 7 (8 ∷ []) at_end-IsPipe refl (omega arith)
