-- ===== src/Marks/Examples.antt =====
-- A mark pushed on a frame with one mark.
use go_perl.Prelude.{ℕ, zero, suc, ◌≡◌, refl, ap, false, List, [], ◌∷◌, length}
use go_perl.Marks.{xs_marks, Marks}

abbrev pub zeroes : ℕ → List ℕ
zeroes zero = []
zeroes (suc n) = 0 ∷ zeroes n

pub length-zeroes : (n : ℕ) → length (zeroes n) ≡ n
length-zeroes zero = refl
length-zeroes (suc n) = ap suc (length-zeroes n)

-- The loader's frame: a mark at 0.
abbrev entry : Marks
entry = record { marks = zeroes xs_marks; count = 1; owner = false; ptr = 0 }
