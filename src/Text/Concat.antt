-- ===== src/Text/Concat.antt =====
-- `my_strlcat`: what the destination holds afterwards, and that it stays inside its buffer.
use mathlib.Core.List.{append_assoc}
use go_perl.Prelude.{◌&&◌, Bool-cases, inl, inr}
use go_perl.Prelude.{
  ℕ, zero, suc, ◌+◌, ◌-◌, ◌<◌, ◌≤◌, ◌≡◌, ◌≢◌, refl, List, [], ◌∷◌, ◌++◌, ltb, All, length,
  length-append, length-set, set, take, arith, ap, ◌∙◌, sym,
}
use go_perl.Text.{strlen, memcpy, copy_length, my_strlcat}

abbrev pub NonZero : ℕ → Type 0
NonZero c = c ≢ 0

pub strlen-append : (s slack : List ℕ) → All NonZero s → strlen (s ++ 0 ∷ slack) ≡ length s
strlen-append [] slack h = refl
strlen-append (c ∷ s) slack h = ground (arith, strlen-append s slack h.1)

pub length-memcpy :
    (buf : List ℕ) (at : ℕ) (src : List ℕ) (n : ℕ) → length (memcpy buf at src n) ≡ length buf
unfolding memcpy
length-memcpy buf at src zero = refl
length-memcpy buf at [] (suc n) = refl
length-memcpy buf at (c ∷ src) (suc n) =
    length-memcpy (set buf at c) (at + 1) src n ∙ length-set buf at c

set-append : (pre rest : List ℕ) (x v : ℕ) → set (pre ++ x ∷ rest) (length pre) v ≡ pre ++ v ∷ rest
set-append [] rest x v = refl
set-append (p ∷ pre) rest x v = ap (λ t. p ∷ t) (set-append pre rest x v)

-- Copying over a stretch of `old` puts the first bytes of the source there.
memcpy-append :
    (pre old rest src : List ℕ)
    → length old ≤ length src
    → memcpy (pre ++ (old ++ rest)) (length pre) src (length old)
      ≡ pre ++ (take (length old) src ++ rest)
unfolding memcpy
memcpy-append pre [] rest src h = refl
memcpy-append pre (x ∷ old) rest [] h = absurd (omega arith)
memcpy-append pre (x ∷ old) rest (c ∷ src) h =
    let grown = pre ++ (c ∷ []) in
    let at : length grown ≡ length pre + 1 = length-append pre (c ∷ []) in
    ap (λ b. memcpy b (length pre + 1) src (length old))
      (set-append pre (old ++ rest) x c ∙ sym (append_assoc pre (c ∷ []) (old ++ rest)))
    ∙ ap (λ k. memcpy (grown ++ (old ++ rest)) k src (length old)) (sym at)
    ∙ memcpy-append grown old rest src (omega arith)
    ∙ append_assoc pre (c ∷ []) (take (length old) src ++ rest)

record Split (xs : List ℕ) (n : ℕ) : Type 0 where
  old : List ℕ
  at : ℕ
  rest : List ℕ
  whole : xs ≡ old ++ at ∷ rest
  length_old : length old ≡ n

split : (n : ℕ) (xs : List ℕ) → n < length xs → Split xs n
split n [] h = absurd (omega arith)
split zero (x ∷ xs) h = record { old = []; at = x; rest = xs; whole = refl; length_old = refl }
split (suc n) (x ∷ xs) h =
    let s = split n xs (omega arith) in
    record {
      old = x ∷ s.old;
      at = s.at;
      rest = s.rest;
      whole = ap (λ t. x ∷ t) s.whole;
      length_old = ap suc s.length_old;
    }

take-append_short : (n : ℕ) (src more : List ℕ) → n ≤ length src → take n (src ++ more) ≡ take n src
take-append_short zero src more h = refl
take-append_short (suc n) [] more h = absurd (omega arith)
take-append_short (suc n) (c ∷ src) more h =
    ap (λ t. c ∷ t) (take-append_short n src more (omega arith))

take_all : (n : ℕ) (src : List ℕ) → length src ≤ n → take n src ≡ src
take_all zero [] h = refl
take_all zero (c ∷ src) h = absurd (omega arith)
take_all (suc n) [] h = refl
take_all (suc n) (c ∷ src) h = ap (λ t. c ∷ t) (take_all n src (omega arith))

length-take : (n : ℕ) (xs : List ℕ) → n ≤ length xs → length (take n xs) ≡ n
length-take zero xs h = refl
length-take (suc n) [] h = absurd (omega arith)
length-take (suc n) (x ∷ xs) h = ap suc (length-take n xs (omega arith))

-- The copy is cut to the room, or to the source.
take-copy_length :
    (size used : ℕ) (src more : List ℕ)
    → take (copy_length size used (length src)) (src ++ more) ≡ take (size - used - 1) src
unfolding copy_length
take-copy_length size used src more = elim (Bool-cases (ltb (length src) (size - used - 1))) [
  | inl short ↦ rw short (
      take-append_short (length src) src more (omega arith)
      ∙ take_all (length src) src (omega arith)
      ∙ sym (take_all (size - used - 1) src (ground arith)))
  | inr full ↦ rw full (take-append_short (size - used - 1) src more (ground arith))
]

copy_length-le :
    (size used n : ℕ) → (copy_length size used n ≤ n) × (copy_length size used n ≤ size - used - 1)
unfolding copy_length
copy_length-le size used n = ground arith

-- The two strings with their NULs, inside buffers with `slack` and `more` behind them.
module _ (dst slack src more : List ℕ) (size : ℕ) where
  abbrev pub buffer : List ℕ
  buffer = dst ++ 0 ∷ slack

  abbrev copied : ℕ
  copied = copy_length size (length dst) (length src)

  abbrev pub Result : List ℕ → Type 0
  Result buf = (rest : List ℕ) × (buf ≡ dst ++ (take (size - length dst - 1) src ++ 0 ∷ rest))

  written :
      Split (0 ∷ slack) copied
      → Result (set (memcpy buffer (length dst) (src ++ 0 ∷ more) copied) (length dst + copied) 0)
  written s =
      let from = src ++ 0 ∷ more in
      let got = take (length s.old) from in
      let enough : length s.old ≤ length from = omega (
        arith,
        s.length_old,
        copy_length-le size (length dst) (length src),
        length-append src (0 ∷ more),
      ) in
      let cut : got ≡ take (size - length dst - 1) src =
        ap (λ k. take k from) s.length_old ∙ take-copy_length size (length dst) src (0 ∷ more) in
      let copy : memcpy buffer (length dst) from copied ≡ dst ++ (got ++ s.at ∷ s.rest) =
        ap (λ k. memcpy buffer (length dst) from k) (sym s.length_old)
        ∙ ap (λ b. memcpy (dst ++ b) (length dst) from (length s.old)) s.whole
        ∙ memcpy-append dst s.old (s.at ∷ s.rest) from enough in
      let end : length dst + copied ≡ length (dst ++ got) =
        omega
          (arith, s.length_old, length-append dst got, length-take (length s.old) from enough) in
      (
        s.rest,
        ap (λ b. set b (length dst + copied) 0) (copy ∙ sym (append_assoc dst got (s.at ∷ s.rest)))
            ∙ ap (λ k. set ((dst ++ got) ++ s.at ∷ s.rest) k 0) end
            ∙ set-append (dst ++ got) s.rest s.at 0
            ∙ append_assoc dst got (0 ∷ s.rest)
            ∙ ap (λ t. dst ++ (t ++ 0 ∷ s.rest)) cut,
      )

  -- The destination afterwards is the old string, then as much of the source as leaves room for
  -- the NUL within `size`, then the NUL; the buffer keeps its length, so nothing is written past
  -- it. The result is the length of both strings together.
  pub my_strlcat_lem :
      All NonZero dst
      → All NonZero src
      → size ≤ length buffer
      → Result (my_strlcat buffer (src ++ 0 ∷ more) size).0
        × (length (my_strlcat buffer (src ++ 0 ∷ more) size).0 ≡ length buffer)
        × ((my_strlcat buffer (src ++ 0 ∷ more) size).1 ≡ length dst + length src)
  unfolding my_strlcat
  my_strlcat_lem nz_dst nz_src room =
      rw (strlen-append dst slack nz_dst, strlen-append src more nz_src)
        (elim (Bool-cases (ltb 0 size && ltb (length dst) (size - 1))) [
          | inl fits ↦ rw fits (
            written (
                split copied (0 ∷ slack) (
                  ground (
                    arith,
                    copy_length-le size (length dst) (length src),
                    length-append dst (0 ∷ slack),
                  ))),
            length-set (memcpy buffer (length dst) (src ++ 0 ∷ more) copied) (length dst + copied) 0
                ∙ length-memcpy buffer (length dst) (src ++ 0 ∷ more) copied,
            refl,
          )
          | inr full ↦ rw full (
            (slack, let none_left : size - length dst - 1 ≡ 0 = ground arith in rw none_left),
            refl,
            refl,
          )
        ])
