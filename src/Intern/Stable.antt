-- ===== src/Intern/Stable.antt =====
-- Interned strings keep their pointers, and a pointer its string.
use go_perl.Prelude.{
  ℕ, ◌<◌, ◌≡◌, refl, ap, sym, ◌∙◌, true, false, Option, none, some, List, [], ◌∷◌, ◌++◌, ◌==◌,
  if◌then◌else◌, length, get_or, set, take, All, arith, ==_refl, ==_iff, Bool-cases, choice-some,
  inl, inr, get_or-set, get_or-set_other, take-append_length,
}
use mathlib.Core.Path.{subst}
use go_perl.Text.{strlen}
use go_perl.Text.Search.{mem_eq_sound, mem_eq_complete}
use go_perl.Text.Concat.{NonZero, strlen-append}
use go_perl.Intern.{intern_buckets, Chain, Pointer, intern_hash, entry_is, lookup, intern}

-- The C string in an entry.
abbrev pub c_string : List ℕ → List ℕ
c_string e = take (strlen (e ++ 0 ∷ [])) (e ++ 0 ∷ [])

abbrev pub entry_at : Chain → ℕ → Option (List ℕ)
entry_at [] k = none
entry_at (e ∷ es) k = if length es == k then some e else entry_at es k

-- What a pointer leads to.
abbrev pub deref : List Chain → Pointer → Option (List ℕ)
deref t p = entry_at (get_or t p.0 []) p.1

entry_is-c_string : (s e : List ℕ) → entry_is s e ≡ true → c_string e ≡ s
unfolding entry_is
entry_is-c_string s e h =
    let len : strlen (e ++ 0 ∷ []) ≡ length s = ground arith in
    let (post, whole) = mem_eq_sound s (e ++ 0 ∷ []) (ground arith) in
    ap (λ n. take n (e ++ 0 ∷ [])) len ∙ ap (take (length s)) whole ∙ take-append_length s post

entry_is_self : (s : List ℕ) → All NonZero s → entry_is s s ≡ true
unfolding entry_is
entry_is_self s nz = rw (strlen-append s [] nz, ==_refl (length s)) (mem_eq_complete s (0 ∷ []))

entry_at-below : (es : Chain) (k : ℕ) {x : List ℕ} → entry_at es k ≡ some x → k < length es
entry_at-below [] k e = cc
entry_at-below (y ∷ es) k e = elim (choice-some (length es == k) y (entry_at es k) e) [
  | inl (same, z) ↦ ground arith
  | inr later ↦ omega (arith, entry_at-below es k later)
]

entry_at-cons :
    (y : List ℕ) (es : Chain) (k : ℕ) {x : List ℕ}
    → entry_at es k ≡ some x
    → entry_at (y ∷ es) k ≡ some x
entry_at-cons y es k e =
    let below = entry_at-below es k e in
    let other : (length es == k) ≡ false = ground arith in rw other e

entry_at-top : (y : List ℕ) (es : Chain) → entry_at (y ∷ es) (length es) ≡ some y
entry_at-top y es = rw (==_refl (length es)) refl

lookup-entry_at :
    (s : List ℕ) (es : Chain) (k : ℕ)
    → lookup s es ≡ some k
    → (e : List ℕ) × (entry_at es k ≡ some e) × (c_string e ≡ s)
unfolding lookup
lookup-entry_at s [] k h = cc
lookup-entry_at s (e ∷ es) k h = elim (choice-some (entry_is s e) (length es) (lookup s es) h) [
  | inl (f, same) ↦
      (e, ap (entry_at (e ∷ es)) (sym same) ∙ entry_at-top e es, entry_is-c_string s e f)
  | inr later ↦ let (x, at, c) = lookup-entry_at s es k later in (x, entry_at-cons e es k at, c)
]

lookup-top : (s : List ℕ) (es : Chain) → All NonZero s → lookup s (s ∷ es) ≡ some (length es)
unfolding lookup
lookup-top s es nz = rw (entry_is_self s nz) refl

abbrev after : List ℕ → List Chain → Option ℕ → Option Pointer × List Chain
after s t none = (
  some (intern_hash s, length (get_or t (intern_hash s) [])),
  set t (intern_hash s) (s ∷ get_or t (intern_hash s) []),
)
after s t (some k) = (some (intern_hash s, k), t)

intern-after :
    (s : List ℕ) (t : List Chain) {r : Option ℕ}
    → lookup s (get_or t (intern_hash s) []) ≡ r
    → intern true s t ≡ after s t r
unfolding intern
intern-after s t {r} e = go (lookup s (get_or t (intern_hash s) [])) refl ∙ ap (after s t) e
  where
    go :
        (q : Option ℕ)
        → lookup s (get_or t (intern_hash s) []) ≡ q
        → ◌≡◌ {A = Option Pointer × List Chain}
            (elim q [
              | some k ↦ (some (intern_hash s, k), t)
              | none ↦ (
                some (intern_hash s, length (get_or t (intern_hash s) [])),
                set t (intern_hash s) (s ∷ get_or t (intern_hash s) []),
              )
            ])
            (after s t q)
    go none f = refl
    go (some k) f = refl

hash-below : (s : List ℕ) → intern_hash s < intern_buckets
unfolding intern_hash
hash-below s = omega arith

-- Pushing an entry keeps what every pointer leads to.
push-stable :
    (s : List ℕ) (t : List Chain) (h : ℕ)
    → h < length t
    → (q : Pointer) {x : List ℕ} → deref t q ≡ some x
    → deref (set t h (s ∷ get_or t h [])) q ≡ some x
push-stable s t h below (b, k) e = elim (Bool-cases (h == b)) [
  | inl same ↦
      let z : h ≡ b = (==_iff h b).0 same in
      ap (λ i. entry_at (get_or (set t h (s ∷ get_or t h [])) i []) k) (sym z)
      ∙ ap (λ c. entry_at c k) (get_or-set t h (s ∷ get_or t h []) [] below)
      ∙ entry_at-cons s (get_or t h []) k (ap (λ i. entry_at (get_or t i []) k) z ∙ e)
  | inr other ↦
      ap (λ c. entry_at c k) (get_or-set_other t h b (s ∷ get_or t h []) [] (λ z. ground arith)) ∙ e
]

-- What `intern` promises of its result and of the table behind it.
pub record IsInterned (s : List ℕ) (t : List Chain) (r : Option Pointer × List Chain) : Type 0 where
  pub at : Pointer
  pub result : r.0 ≡ some at
  pub holds : (e : List ℕ) × (deref r.1 at ≡ some e) × (c_string e ≡ s)
  pub again : intern true s r.1 ≡ r
  pub stable : (q : Pointer) {x : List ℕ} → deref t q ≡ some x → deref r.1 q ≡ some x

-- For a string without a NUL, and a table of the declared size: the result points to a copy of
-- it, interning it again gives the same pointer and leaves the table, and every pointer given out
-- before still leads to its string.
pub intern_lem :
    (s : List ℕ) (t : List Chain)
    → All NonZero s
    → length t ≡ intern_buckets
    → IsInterned s t (intern true s t)
intern_lem s t nz size = go (lookup s (get_or t (intern_hash s) [])) refl
  where
    go :
        (r : Option ℕ)
        → lookup s (get_or t (intern_hash s) []) ≡ r
        → IsInterned s t (intern true s t)
    go (some k) e = subst (IsInterned s t) (sym (intern-after s t e)) (record {
      at = (intern_hash s, k);
      result = refl;
      holds = lookup-entry_at s (get_or t (intern_hash s) []) k e;
      again = intern-after s t e;
      stable = λ q d. d;
    })
    go none e =
        let h = intern_hash s in
        let chain = get_or t h [] in
        let below : h < length t = omega (arith, hash-below s) in
        let found : get_or (set t h (s ∷ chain)) h [] ≡ s ∷ chain =
          get_or-set t h (s ∷ chain) [] below in
        subst (IsInterned s t) (sym (intern-after s t e)) (record {
          at = (h, length chain);
          result = refl;
          holds = (
            s,
            ap (λ c. entry_at c (length chain)) found ∙ entry_at-top s chain,
            entry_is-c_string s s (entry_is_self s nz),
          );
          again =
              intern-after s (set t h (s ∷ chain)) (ap (lookup s) found ∙ lookup-top s chain nz);
          stable = push-stable s t h below;
        })
