-- ===== src/Intern/Examples.antt =====
-- A name interned in an empty table.
use go_perl.Prelude.{ℕ, zero, suc, ◌≡◌, refl, ap, true, List, [], ◌∷◌, length, arith}
use go_perl.Intern.{intern_buckets, Chain, intern}
use go_perl.Intern.Stable.{IsInterned, intern_lem}

abbrev empty_chains : ℕ → List Chain
empty_chains zero = []
empty_chains (suc n) = [] ∷ empty_chains n

length-empty_chains : (n : ℕ) → length (empty_chains n) ≡ n
length-empty_chains zero = refl
length-empty_chains (suc n) = ap suc (length-empty_chains n)

-- "main"
abbrev name : List ℕ
name = b'm' ∷ b'a' ∷ b'i' ∷ b'n' ∷ []

intern_lem_example :
    IsInterned name (empty_chains intern_buckets) (intern true name (empty_chains intern_buckets))
intern_lem_example =
    intern_lem name (empty_chains intern_buckets) (ground arith)
      (length-empty_chains intern_buckets)
