-- ===== src/Flush/Loop.antt =====
-- The loops `for (i = 0; i < n; i++)` over a table, whose body rewrites the entry and calls the
-- guest.
use go_perl.Prelude.{ℕ, ◌+◌, ◌≡◌, refl, ap, sym, List, [], ◌∷◌, ◌++◌}
use mathlib.Core.List.{append_assoc, append-nil}
use mathlib.Core.Path.{ap₂}
use go_perl.Bridge.{Log}

module _ {A : Type 0} where
  pub each : (ℕ → A → Log → A × Log) → ℕ → List A → Log → List A × Log
  each step i [] log = ([], log)
  each step i (x ∷ xs) log =
      let (x', log') = step i x log in
      let (xs', log'') = each step (i + 1) xs log' in (x' ∷ xs', log'')

  -- The entries after such a loop, and the calls that it makes.
  abbrev pub each_clean : (ℕ → A → A) → ℕ → List A → List A
  each_clean clean i [] = []
  each_clean clean i (x ∷ xs) = clean i x ∷ each_clean clean (i + 1) xs

  abbrev pub each_calls : (ℕ → A → Log) → ℕ → List A → Log
  each_calls calls i [] = []
  each_calls calls i (x ∷ xs) = calls i x ++ each_calls calls (i + 1) xs

  pub each-eq :
      (step : ℕ → A → Log → A × Log) (clean : ℕ → A → A) (calls : ℕ → A → Log)
      → ((i : ℕ) (x : A) (log : Log) → step i x log ≡ (clean i x, log ++ calls i x))
      → (i : ℕ) (xs : List A) (log : Log)
      → each step i xs log ≡ (each_clean clean i xs, log ++ each_calls calls i xs)
  unfolding each
  each-eq step clean calls h i [] log = ap (λ l. ([], l)) (sym (append-nil log))
  each-eq step clean calls h i (x ∷ xs) log =
      rw (h i x log, each-eq step clean calls h (i + 1) xs (log ++ calls i x))
        (ap (λ l. (clean i x ∷ each_clean clean (i + 1) xs, l))
          (append_assoc log (calls i x) (each_calls calls (i + 1) xs)))

  -- A loop over clean entries makes no call and leaves them.
  pub each_calls-clean :
      (clean : ℕ → A → A) (calls : ℕ → A → Log)
      → ((i : ℕ) (x : A) → calls i (clean i x) ≡ [])
      → (i : ℕ) (xs : List A) → each_calls calls i (each_clean clean i xs) ≡ []
  each_calls-clean clean calls h i [] = refl
  each_calls-clean clean calls h i (x ∷ xs) = rw (h i x) (each_calls-clean clean calls h (i + 1) xs)

  pub each_clean-clean :
      (clean : ℕ → A → A)
      → ((i : ℕ) (x : A) → clean i (clean i x) ≡ clean i x)
      → (i : ℕ) (xs : List A) → each_clean clean i (each_clean clean i xs) ≡ each_clean clean i xs
  each_clean-clean clean h i [] = refl
  each_clean-clean clean h i (x ∷ xs) =
      ap₂ (λ y ys. y ∷ ys) (h i x) (each_clean-clean clean h (i + 1) xs)
