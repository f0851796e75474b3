-- ===== src/Sort/Examples.antt =====
-- Numbers sorted by their tens.
use mathlib.Core.List.{Perm}
use go_perl.Prelude.{ℕ, ◌/◌, ◌≡◌, refl, Bool, List, [], ◌∷◌, ◌++◌, ltb, arith}
use go_perl.Sort.{sortsv, insert_from, shift}
use go_perl.Sort.Stable.{IsOrder, IsSorted, equals, sortsv-IsSorted}

abbrev by_tens : ℕ → ℕ → Bool
by_tens a b = ltb (b / 10) (a / 10)

abbrev unsorted : List ℕ
unsorted = 35 ∷ 21 ∷ 31 ∷ 12 ∷ 29 ∷ []

sorted_by_tens : sortsv by_tens 5 (unsorted ++ (7 ∷ [])) ≡ 12 ∷ 21 ∷ 29 ∷ 35 ∷ 31 ∷ 7 ∷ []
unfolding sortsv insert_from shift
sorted_by_tens = refl

by_tens-IsOrder : IsOrder by_tens
by_tens-IsOrder = record { asym = λ a b h. ground arith; le_trans = λ a b c h k. ground arith }

sortsv-IsSorted_example :
    (sorted : List ℕ) × (sortsv by_tens 5 (unsorted ++ (7 ∷ [])) ≡ sorted ++ (7 ∷ []))
    × IsSorted by_tens sorted
    × Perm sorted unsorted
    × ((c : ℕ) → equals by_tens c sorted ≡ equals by_tens c unsorted)
sortsv-IsSorted_example = sortsv-IsSorted by_tens unsorted (7 ∷ []) by_tens-IsOrder
