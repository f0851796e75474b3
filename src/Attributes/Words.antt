-- ===== src/Attributes/Words.antt =====
-- The words that are passed on.
use go_perl.Prelude.{
  ◌⊎◌, ℕ, zero, suc, ◌-◌, ◌<◌, ◌≤◌, ◌%◌, ◌^◌, ◌≡◌, refl, sym, ap, ◌∙◌, inl, inr, true, false, List,
  [], ◌∷◌, ◌++◌, leb, ◌==◌, if◌then◌else◌, length, take, Bool-cases, arith, length-append,
}
use mathlib.Core.List.{append-nil, append_assoc}
use go_perl.Bridge.{Guest, World}
use go_perl.Attributes.{
  skip_spaces, word_at, mortal_pvn, is_nil, max_tokens, attr_loop, attr_head, import_attrs,
  apply_attrs_string,
}

-- A word that has ended, if it has a byte.
abbrev pub closed : List ℕ → List (List ℕ)
closed [] = []
closed (c ∷ word) = (c ∷ word) ∷ []

-- The words of a string, parted by spaces, with the bytes `word` of the one that is open.
unfoldable pub words_from : List ℕ → List ℕ → List (List ℕ)
words_from word [] = closed word
words_from word (c ∷ s) =
    if c == b' ' then closed word ++ words_from [] s else words_from (word ++ (c ∷ [])) s

abbrev pub words : List ℕ → List (List ℕ)
words s = words_from [] s

-- One mortal SV for each word.
pub new_words : Guest → List (List ℕ) → List ℕ → World → List ℕ × World
new_words g [] toks w = (toks, w)
new_words g (word ∷ later) toks w =
    let (sv, w') = mortal_pvn g word w in new_words g later (toks ++ (sv % 2 ^ 32 ∷ [])) w'

words_from_space :
    (word : List ℕ) (c : ℕ) (s : List ℕ)
    → (c == b' ') ≡ true
    → words_from word (c ∷ s) ≡ closed word ++ words s
unfolding words_from
words_from_space word c s e = rw e refl

words_from_other :
    (word : List ℕ) (c : ℕ) (s : List ℕ)
    → (c == b' ') ≡ false
    → words_from word (c ∷ s) ≡ words_from (word ++ (c ∷ [])) s
unfolding words_from
words_from_other word c s e = rw e refl

words-skip_spaces : (s : List ℕ) → words s ≡ words (skip_spaces s)
unfolding skip_spaces
words-skip_spaces [] = refl
words-skip_spaces (c ∷ s) = elim (Bool-cases (c == b' ')) [
  | inl e ↦ words_from_space [] c s e ∙ rw e (words-skip_spaces s)
  | inr e ↦ rw e refl
]

words_from-word_at :
    (word s : List ℕ) → words_from word s ≡ closed (word ++ (word_at s).0) ++ words (word_at s).1
unfolding word_at
words_from-word_at word [] =
    rw (append-nil word) (unfold words_from in sym (append-nil (closed word)))
words_from-word_at word (c ∷ s) = elim (Bool-cases (c == b' ')) [
  | inl e ↦
      words_from_space word c s e
      ∙ rw (e, append-nil word) (ap (λ l. closed word ++ l) (sym (words_from_space [] c s e)))
  | inr e ↦
      words_from_other word c s e
      ∙ words_from-word_at (word ++ (c ∷ [])) s
      ∙ rw e (ap (λ l. closed l ++ words (word_at s).1) (append_assoc word (c ∷ []) (word_at s).0))
]

words_lem :
    (s : List ℕ) → let p = skip_spaces s in words s ≡ closed (word_at p).0 ++ words (word_at p).1
words_lem s = words-skip_spaces s ∙ words_from-word_at [] (skip_spaces s)

length-word_at : (s : List ℕ) → length (word_at s).1 ≤ length s
unfolding word_at
length-word_at [] = omega arith
length-word_at (c ∷ s) = elim (Bool-cases (c == b' ')) [
  | inl e ↦ rw e (omega arith)
  | inr e ↦ rw e (omega (arith, length-word_at s))
]

-- Each round takes a byte.
rest_shorter : (s : List ℕ) → is_nil s ≡ false → length (word_at (skip_spaces s)).1 < length s
unfolding skip_spaces
rest_shorter [] h = cc
rest_shorter (c ∷ []) h = elim (Bool-cases (c == b' ')) [
  | inl e ↦ rw e (unfold word_at in omega arith)
  | inr e ↦ rw e (unfold word_at in rw e (omega arith))
]
rest_shorter (c ∷ d ∷ s) h = elim (Bool-cases (c == b' ')) [
  | inl e ↦ rw e (omega (arith, rest_shorter (d ∷ s) refl))
  | inr e ↦ rw e (unfold word_at in rw e (omega (arith, length-word_at (d ∷ s))))
]

take-nil : (n : ℕ) → take {A = List ℕ} n [] ≡ []
take-nil zero = refl
take-nil (suc n) = refl

closed-cases :
    (word : List ℕ)
    → ((is_nil word ≡ true) × (closed word ≡ []))
      ⊎ ((is_nil word ≡ false) × (closed word ≡ word ∷ []))
closed-cases [] = inl (refl, refl)
closed-cases (c ∷ word) = inr (refl, refl)

attr_loop_lem :
    (g : Guest) (fuel : ℕ) (s toks : List ℕ) (w : World)
    → length s < fuel
    → attr_loop g fuel s toks w ≡ new_words g (take (max_tokens - length toks) (words s)) toks w
unfolding attr_loop new_words
attr_loop_lem g zero s toks w h = absurd (omega arith)
attr_loop_lem g (suc fuel) [] toks w h =
    let no_words : words [] ≡ [] = unfold words_from in refl in
    rw (no_words, take-nil (max_tokens - length toks)) refl
attr_loop_lem g (suc fuel) (c ∷ s) toks w h = elim (Bool-cases (leb max_tokens (length toks))) [
  | inl e ↦ let full : max_tokens - length toks ≡ 0 = ground arith in rw (e, full) refl
  | inr e ↦
      let cut = word_at (skip_spaces (c ∷ s)) in
      let shorter = rest_shorter (c ∷ s) refl in
      elim (closed-cases cut.0) [
        | inl (nil, none) ↦
            let passed : words (c ∷ s) ≡ words cut.1 =
              words_lem (c ∷ s) ∙ ap (λ l. l ++ words cut.1) none in
            rw (e, nil)
              (attr_loop_lem g fuel cut.1 toks w (omega arith)
                ∙ ap (λ l. new_words g (take (max_tokens - length toks) l) toks w) (sym passed))
        | inr (full, one) ↦
            let (sv, w') = mortal_pvn g cut.0 w in
            let toks' = toks ++ (sv % 2 ^ 32 ∷ []) in
            let taken : words (c ∷ s) ≡ cut.0 ∷ words cut.1 =
              words_lem (c ∷ s) ∙ ap (λ l. l ++ words cut.1) one in
            let one_less : max_tokens - length toks ≡ suc (max_tokens - length toks') =
              ground (arith, length-append toks (sv % 2 ^ 32 ∷ [])) in
            rw (e, full, one_less, taken) (attr_loop_lem g fuel cut.1 toks' w' (omega arith))
      ]
]

-- Whatever the sub and the package are: the sub's attributes are the words of the string, parted by
-- spaces, and the first 13 of them, in their order, become one SV each behind the package's name
-- and the reference to the sub; these tokens and no other go to `attributes::import`.
pub apply_attrs_string_lem :
    (g : Guest) (stashpv : List ℕ) (cv : ℕ) (attrstr : List ℕ) (w : World)
    → let head = attr_head g stashpv cv w in
      let passed = new_words g (take 13 (words attrstr)) head.0 head.1 in
      apply_attrs_string g stashpv cv attrstr w ≡ import_attrs g passed.0 passed.1
unfolding apply_attrs_string attr_head
apply_attrs_string_lem g stashpv cv attrstr w =
    let head = attr_head g stashpv cv w in
    ap (λ r. import_attrs g r.0 r.1)
      (attr_loop_lem g (suc (length attrstr)) attrstr head.0 head.1 (omega arith))
