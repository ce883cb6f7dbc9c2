-- ===== src/Strings/Tests.antt =====
-- Copies of a short string at address 100.
use ele3021_operating_system.Base.{ℕ, ◌≡◌, refl, update}
use ele3021_operating_system.Strings.{memmove, copy_down}

abbrev memory : ℕ → ℕ
memory = update (update (λ a. 0) 100 104) 101 105

-- The two bytes moved up by one.
move_run : memmove 101 100 2 memory 102 ≡ 105
unfolding memmove copy_down
move_run = refl
