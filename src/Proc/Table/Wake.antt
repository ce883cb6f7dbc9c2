-- ===== src/Proc/Table/Wake.antt =====
-- `wakeup1`.
use ele3021_operating_system.Base.{
  ℕ, zero, suc, ◌≡◌, refl, false, ◌&&◌, List, [], ◌∷◌, Option, none, some, get_elem?, arith, All,
  if◌then◌else◌,
}
use ele3021_operating_system.Proc.{runnable, Chan, Proc, is_sleeping, same_chan}
use ele3021_operating_system.Proc.Table.{wakeup1, set_state}

-- An entry before and after `wakeup1(chan)`: a sleeper on `chan` is RUNNABLE, all else is unchanged.
abbrev pub Woken : Chan → Option Proc → Option Proc → Type 0
Woken chan none q = q ≡ none
Woken chan (some p) q =
    (q ≡ some (if is_sleeping p.state && same_chan p.chan chan then set_state runnable p else p))

wakeup1-Woken :
    (chan : Chan) (ps : List Proc) (i : ℕ)
    → Woken chan (get_elem? ps i) (get_elem? (wakeup1 chan ps) i)
unfolding wakeup1
wakeup1-Woken chan [] i = refl
wakeup1-Woken chan (p ∷ ps) zero = refl
wakeup1-Woken chan (p ∷ ps) (suc i) = wakeup1-Woken chan ps i

wakeup1-awake :
    (chan : Chan) (ps : List Proc)
    → All (λ p. (is_sleeping p.state && same_chan p.chan chan) ≡ false) (wakeup1 chan ps)
unfolding wakeup1
wakeup1-awake chan [] = tt
wakeup1-awake chan (p ∷ ps) = (ground arith, wakeup1-awake chan ps)

-- After `wakeup1(chan)` no process sleeps on `chan`: no wakeup is lost. A process that is not asleep,
-- or sleeps on something else, is not touched.
wakeup1_lem :
    (chan : Chan) (ps : List Proc)
    → All (λ p. (is_sleeping p.state && same_chan p.chan chan) ≡ false) (wakeup1 chan ps)
      × ((i : ℕ) → Woken chan (get_elem? ps i) (get_elem? (wakeup1 chan ps) i))
wakeup1_lem chan ps = (wakeup1-awake chan ps, wakeup1-Woken chan ps)
