-- ===== src/Text/Search.antt =====
-- `ninstr` and `rninstr`: the first and the last occurrence.
use go_perl.Prelude.{
  ℕ, zero, suc, ◌+◌, ◌-◌, ◌<◌, ◌≤◌, ◌≡◌, refl, inl, inr, true, false, List, [], ◌∷◌, ◌++◌, ltb,
  Option, none, some, ◌==◌, ==_refl, length, length-append, length-drop, drop, arith, Bool-cases,
  ap, ◌∙◌,
}
use mathlib.Core.Option
use go_perl.Prelude.{==_iff}
use go_perl.Text.{mem_eq, ninstr_loop, ninstr, rninstr_loop, rninstr}

-- `little` stands in `big` at the index `i`.
abbrev pub OccursAt : List ℕ → List ℕ → ℕ → Type 0
OccursAt little big i = (post : List ℕ) × (drop i big ≡ little ++ post)

pub mem_eq_sound : (little big : List ℕ) → mem_eq little big ≡ true → OccursAt little big 0
unfolding mem_eq
mem_eq_sound [] big h = (big, refl)
mem_eq_sound (l ∷ little) [] h = cc
mem_eq_sound (l ∷ little) (b ∷ big) h =
    let (post, e) = mem_eq_sound little big (ground arith) in (post, ground arith)

pub mem_eq_complete : (little post : List ℕ) → mem_eq little (little ++ post) ≡ true
unfolding mem_eq
mem_eq_complete [] post = refl
mem_eq_complete (l ∷ little) post = rw (==_refl l) (mem_eq_complete little post)

-- Where the code's comparison fails there is no occurrence.
not-OccursAt :
    (little big : List ℕ) (i : ℕ) → mem_eq little (drop i big) ≡ false → ¬ OccursAt little big i
not-OccursAt little big i h (post, e) = cc (mem_eq_complete little post)

fits :
    (little big : List ℕ) (i : ℕ)
    → OccursAt little big i
    → 0 < length little
    → length little + i ≤ length big
fits little big i (post, e) pos =
    omega (arith, ap length e, length-append little post, length-drop i big)

-- The answer of a search for `little` in `big`, from the left.
abbrev pub First : List ℕ → List ℕ → Option ℕ → Type 0
First little big none = (j : ℕ) → ¬ OccursAt little big j
First little big (some i) = OccursAt little big i × ((j : ℕ) → j < i → ¬ OccursAt little big j)

-- From the right: no later occurrence, up to the end of `big`.
abbrev pub Last : List ℕ → List ℕ → Option ℕ → Type 0
Last little big none = (j : ℕ) → ¬ OccursAt little big j
Last little big (some i) =
    OccursAt little big i × ((j : ℕ) → i < j → j ≤ length big → ¬ OccursAt little big j)

abbrev FoundFrom : ℕ → List ℕ → List ℕ → Option ℕ → Type 0
FoundFrom i little big answer =
    (r : Option ℕ) × First little big r × (answer ≡ Option.map (λ j. i + j) r)

First-cons :
    (little big : List ℕ) (b : ℕ) (r : Option ℕ)
    → ¬ OccursAt little (b ∷ big) 0
    → First little big r
    → First little (b ∷ big) (Option.map suc r)
First-cons little big b none miss h = λ j o. earlier j o
  where
    earlier : (j : ℕ) → ¬ OccursAt little (b ∷ big) j
    earlier zero o = miss o
    earlier (suc j) o = h j o
First-cons little big b (some i) miss h = (h.0, λ j l o. earlier j l o)
  where
    earlier : (j : ℕ) → j < suc i → ¬ OccursAt little (b ∷ big) j
    earlier zero l o = miss o
    earlier (suc j) l o = h.1 j (omega arith) o

map-suc_shift :
    (i : ℕ) (r : Option ℕ)
    → Option.map (λ j. i + 1 + j) r ≡ Option.map (λ j. i + j) (Option.map suc r)
map-suc_shift i none = refl
map-suc_shift i (some j) = ap some (omega arith)

ninstr_loop-First :
    (big little : List ℕ) (i : ℕ)
    → 0 < length little
    → FoundFrom i little big (ninstr_loop big little i)
unfolding ninstr_loop
ninstr_loop-First [] little i pos =
    (none, λ j o. absurd (omega (arith, fits little [] j o pos)), refl)
ninstr_loop-First (b ∷ big) little i pos =
    elim (Bool-cases (ltb (suc (length big)) (length little))) [
      | inl short ↦ (none, λ j o. absurd (ground (arith, fits little (b ∷ big) j o pos)), rw short)
      | inr room ↦ elim (Bool-cases (mem_eq little (b ∷ big))) [
        | inl hit ↦ (
          some 0,
          (mem_eq_sound little (b ∷ big) hit, λ j l. absurd (omega arith)),
          rw (room, hit) (ap some (omega arith)),
        )
        | inr miss ↦
            let (r, first, e) = ninstr_loop-First big little (i + 1) pos in
            (
              Option.map suc r,
              First-cons little big b r (not-OccursAt little (b ∷ big) 0 miss) first,
              rw (room, miss) (e ∙ map-suc_shift i r),
            )
      ]
    ]

suc-ne_zero : (n : ℕ) → (suc n == 0) ≡ false
suc-ne_zero n = ground arith

-- `ninstr` returns the first index at which `little` stands in `big`, and null exactly if it
-- stands nowhere; an empty `little` is found at the start.
pub ninstr-First : (big little : List ℕ) → First little big (ninstr big little)
unfolding ninstr
ninstr-First big [] = ((big, refl), λ j l. absurd (omega arith))
ninstr-First big (l ∷ little) =
    let (r, first, e) = ninstr_loop-First big (l ∷ little) 0 (omega arith) in
    rw (suc-ne_zero (length little), e, map-zero_shift r) first
  where
    map-zero_shift : (r : Option ℕ) → Option.map (λ j. 0 + j) r ≡ r
    map-zero_shift none = refl
    map-zero_shift (some j) = ap some (omega arith)

rninstr_loop-Last :
    (big little : List ℕ) (left : ℕ)
    → ((j : ℕ) → left ≤ j → ¬ OccursAt little big j)
    → Last little big (rninstr_loop big little left)
unfolding rninstr_loop
rninstr_loop-Last big little zero none_from = λ j o. none_from j (omega arith) o
rninstr_loop-Last big little (suc left) none_from =
    elim (Bool-cases (mem_eq little (drop left big))) [
      | inl hit ↦
          rw hit (mem_eq_sound little (drop left big) hit, λ j l m o. none_from j (omega arith) o)
      | inr miss ↦ rw miss (rninstr_loop-Last big little left λ j l o. next j l o miss)
    ]
  where
    next : (j : ℕ) → left ≤ j → OccursAt little big j → mem_eq little (drop left big) ≡ false → ⊥
    next j l o miss = elim (Bool-cases (j == left)) [
      | inl same ↦ not-OccursAt little big j (rw ((==_iff j left).0 same) miss) o
      | inr other ↦ none_from j (ground arith) o
    ]

-- `rninstr` returns the last index at which `little` stands in `big`, and null exactly if it
-- stands nowhere; an empty `little` is found at the end.
pub rninstr-Last : (big little : List ℕ) → Last little big (rninstr big little)
unfolding rninstr
rninstr-Last big [] = ((drop (length big) big, refl), λ j l m. absurd (omega arith))
rninstr-Last big (l ∷ little) = rw (suc-ne_zero (length little)) (
    rninstr_loop-Last big (l ∷ little) (length big + 1 - suc (length little))
      λ j k o. omega (arith, fits (l ∷ little) big j o (omega arith)))
