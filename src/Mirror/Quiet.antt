-- ===== src/Mirror/Quiet.antt =====
-- A state with nothing pending, and what one assignment through a mirror makes pending.
use go_perl.Prelude.{
  ℕ, zero, suc, ◌+◌, ◌≡◌, refl, ap, ◌∙◌, Option, none, some, List, [], ◌∷◌, ◌++◌, get_elem?, arith,
  length,
}
use mathlib.Core.List.{append-nil}
use go_perl.Prelude.{Bool, true, false, if◌then◌else◌, ◌⊎◌, inl, inr, ==_iff, ◌==◌}
use go_perl.Bridge.{Log, IvMirror, AvMirror, World}
use go_perl.Flush.Loop.{each_clean, each_calls}
use go_perl.Flush.Spec.{
  plshadow_calls, ivmirror_calls, avmirror_calls, svcur_calls, hints_calls, hooks_calls, pp_calls,
  pending,
}
use go_perl.Mirror.{find, modify}

pub nil_of_append : (xs ys : Log) → xs ++ ys ≡ [] → (xs ≡ []) × (ys ≡ [])
nil_of_append [] ys h = (refl, h)
nil_of_append (x ∷ xs) ys h = cc

-- Each part of what is pending is empty.
pub record IsQuiet (w : World) : Type 0 where
  pub svcur : svcur_calls w ≡ []
  pub hints : hints_calls w ≡ []
  pub hooks : hooks_calls w ≡ []
  pub plshadow : each_calls plshadow_calls 0 w.shared.plshadow ≡ []
  pub ivmirrors : each_calls ivmirror_calls 0 w.shared.ivmirrors ≡ []
  pub avmirrors : each_calls avmirror_calls 0 w.shared.avmirrors ≡ []
  pub pp : pp_calls w ≡ []

pub pending-IsQuiet : (w : World) → pending w ≡ [] → IsQuiet w
unfolding pending
pending-IsQuiet w h =
    let (a, ha) = nil_of_append (svcur_calls w) _ h in
    let (b, hb) = nil_of_append (hints_calls w) _ ha in
    let (c, hc) = nil_of_append (hooks_calls w) _ hb in
    let (d, hd) = nil_of_append (each_calls plshadow_calls 0 w.shared.plshadow) _ hc in
    let (e, he) = nil_of_append (each_calls ivmirror_calls 0 w.shared.ivmirrors) _ hd in
    let (f, k) = nil_of_append (each_calls avmirror_calls 0 w.shared.avmirrors) _ he in
    record { svcur = a; hints = b; hooks = c; plshadow = d; ivmirrors = e; avmirrors = f; pp = k }

-- Where all is quiet but one table, that table's writes are all that is pending.
module _ (w : World) (log : Log) (quiet : IsQuiet w) where
  pub pending-ivmirrors :
      (ms : List IvMirror)
      → pending (record w { shared = record (w.shared) { ivmirrors = ms }; log = log })
        ≡ each_calls ivmirror_calls 0 ms
  unfolding pending
  pending-ivmirrors ms =
      rw (quiet.svcur, quiet.hints, quiet.hooks, quiet.plshadow, quiet.avmirrors, quiet.pp)
        (append-nil (each_calls ivmirror_calls 0 ms))

  pub pending-avmirrors :
      (ms : List AvMirror)
      → pending (record w { shared = record (w.shared) { avmirrors = ms }; log = log })
        ≡ each_calls avmirror_calls 0 ms
  unfolding pending
  pending-avmirrors ms =
      rw (quiet.svcur, quiet.hints, quiet.hooks, quiet.plshadow, quiet.ivmirrors, quiet.pp)
        (append-nil (each_calls avmirror_calls 0 ms))

found :
    (b : Bool) (r : Option ℕ) (i : ℕ)
    → (if b then some 0 else elim r [ none ↦ none | some j ↦ some (suc j) ]) ≡ some i
    → ((b ≡ true) × (i ≡ 0)) ⊎ ((j : ℕ) × (r ≡ some j) × (i ≡ suc j))
found true r i h = inl (refl, cc)
found false none i h = cc
found false (some j) i h = inr (j, refl, cc)

module _ {A : Type 0} where
  -- The calls of the one entry that was changed.
  abbrev pub changed : (ℕ → A → Log) → ℕ → (A → A) → Option A → Log
  changed calls i f none = []
  changed calls i f (some x) = calls i (f x)

  pub each_calls-modify :
      (calls : ℕ → A → Log) (f : A → A) (i j : ℕ) (xs : List A)
      → each_calls calls i xs ≡ []
      → each_calls calls i (modify j f xs) ≡ changed calls (i + j) f (get_elem? xs j)
  unfolding modify
  each_calls-modify calls f i j [] h = refl
  each_calls-modify calls f i zero (x ∷ xs) h =
      let (a, b) = nil_of_append (calls i x) (each_calls calls (i + 1) xs) h in
      rw b (append-nil (calls i (f x)) ∙ ap (λ k. calls k (f x)) (omega arith))
  each_calls-modify calls f i (suc j) (x ∷ xs) h =
      let (a, b) = nil_of_append (calls i x) (each_calls calls (i + 1) xs) h in
      rw a (
        each_calls-modify calls f (i + 1) j xs b
        ∙ ap (λ k. changed calls k f (get_elem? xs j)) (omega arith))

  pub get_elem?-modify :
      (f : A → A) (j : ℕ) (xs : List A) {x : A}
      → get_elem? xs j ≡ some x
      → get_elem? (modify j f xs) j ≡ some (f x)
  unfolding modify
  get_elem?-modify f j [] h = cc
  get_elem?-modify f zero (y ∷ ys) h = cc
  get_elem?-modify f (suc j) (y ∷ ys) h = get_elem?-modify f j ys h

  pub modify-modify :
      (f h : A → A) (j : ℕ) (xs : List A) → modify j f (modify j h xs) ≡ modify j (λ x. f (h x)) xs
  unfolding modify
  modify-modify f h j [] = refl
  modify-modify f h zero (x ∷ xs) = refl
  modify-modify f h (suc j) (x ∷ xs) = ap (λ t. x ∷ t) (modify-modify f h j xs)

  pub get_elem?-append_length :
      (xs : List A) (x : A) → get_elem? (xs ++ (x ∷ [])) (length xs) ≡ some x
  get_elem?-append_length [] x = refl
  get_elem?-append_length (y ∷ ys) x = get_elem?-append_length ys x

  pub each_calls-append :
      (calls : ℕ → A → Log) (i : ℕ) (xs : List A) (x : A)
      → ((k : ℕ) → calls k x ≡ [])
      → each_calls calls i (xs ++ (x ∷ [])) ≡ each_calls calls i xs
  each_calls-append calls i [] x h = rw (h i) refl
  each_calls-append calls i (y ∷ ys) x h =
      ap (λ l. calls i y ++ l) (each_calls-append calls (i + 1) ys x h)

  pub get_elem?-each_clean :
      (clean : ℕ → A → A) (i j : ℕ) (xs : List A) {x : A}
      → get_elem? xs j ≡ some x
      → get_elem? (each_clean clean i xs) j ≡ some (clean (i + j) x)
  get_elem?-each_clean clean i j [] h = cc
  get_elem?-each_clean clean i zero (y ∷ ys) {x} h = let e : i + 0 ≡ i = omega arith in cc
  get_elem?-each_clean clean i (suc j) (y ∷ ys) {x} h =
      get_elem?-each_clean clean (i + 1) j ys h ∙ ap (λ k. some (clean k x)) (omega arith)

  -- What the lookup loop finds has the token.
  pub find-get_elem? :
      (token : A → ℕ) (tok : ℕ) (xs : List A) (i : ℕ)
      → find token tok xs ≡ some i
      → (x : A) × (get_elem? xs i ≡ some x) × (token x ≡ tok)
  unfolding find
  find-get_elem? token tok [] i h = cc
  find-get_elem? token tok (x ∷ xs) i h = elim (found (token x == tok) (find token tok xs) i h) [
    | inl (e, z) ↦ (x, rw z refl, (==_iff (token x) tok).0 e)
    | inr (j, e, z) ↦ let (y, at, same) = find-get_elem? token tok xs j e in (y, rw z at, same)
  ]
