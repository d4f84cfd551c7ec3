-- ===== src/Fifo/Spec.antt =====
-- What a page queue promises: a first-in first-out list of at most `cap` pages.
use fast_map.Common.{
  ℕ, Bool, true, false, List, [], ◌∷◌, ◌++◌, Option, none, some, length, erase, ltb, if◌then◌else◌,
}

abbrev pub put : ℕ → List ℕ → ℕ → Bool × List ℕ
put cap q p = if ltb (length q) cap then (true, q ++ p ∷ []) else (false, q)

abbrev pub get : List ℕ → Option ℕ × List ℕ
get [] = (none, [])
get (p ∷ q) = (some p, q)

-- A page that `accepts` refuses moves from the front to the back.
abbrev pub get_if : (ℕ → Bool) → List ℕ → Option ℕ × List ℕ
get_if accepts [] = (none, [])
get_if accepts (p ∷ q) = if accepts p then (some p, q) else (none, q ++ p ∷ [])

abbrev pub drop_if : (ℕ → Bool) → List ℕ → ℕ → Bool × List ℕ
drop_if accepts q p = if accepts p then (true, erase p q) else (false, q)
