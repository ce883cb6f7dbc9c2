-- ===== src/Grep/Tests.antt =====
-- The matcher on small inputs.
use ele3021_operating_system.Base.{◌≡◌, ◌↔◌, refl, true, [], ◌∷◌}
use ele3021_operating_system.Grep.{matchhere, matchstar, match_text}
use ele3021_operating_system.Grep.Meaning.{Contains, match_text_lem}

-- "a*b" at "aab", and "b$" in "aab".
matchhere_run : matchhere (97 ∷ 42 ∷ 98 ∷ []) (97 ∷ 97 ∷ 98 ∷ []) ≡ true
unfolding matchhere matchstar
matchhere_run = refl

match_text_lem_example :
    (match_text (98 ∷ 36 ∷ []) (97 ∷ 97 ∷ 98 ∷ []) ≡ true)
    ↔ Contains (98 ∷ 36 ∷ []) (97 ∷ 97 ∷ 98 ∷ [])
match_text_lem_example = match_text_lem 98 (36 ∷ []) (97 ∷ 97 ∷ 98 ∷ [])
