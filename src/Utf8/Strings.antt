-- ===== src/Utf8/Strings.antt =====
-- Whole strings: length, hop, validation and the conversions between bytes and UTF-8.
use go_perl.Prelude.{length-append, length-drop, get_or}
use go_perl.Prelude.{
  ℕ, zero, suc, ◌+◌, ◌%◌, ◌/◌, ◌≤◌, ◌≡◌, refl, true, false, ltb, ltb_of_le, if◌then◌else◌, some,
  List, [], ◌∷◌, ◌++◌, length, arith, inl, inr, ap, ◌∙◌, drop, All, sym, drop-append_length,
}
use mathlib.Core.List.{append_assoc, append-nil}
use mathlib.Core.Path.{subst}
use go_perl.Utf8.{utf8skip_v}
use go_perl.Utf8.{
  IsByte, Bytes, allow_all, utf8skip, utf8n_to_uvchr, uvchr_to_utf8, length_loop, utf8_length,
  hop_step, utf8_hop, utf8_size, encode_bytes, bytes_to_utf8, to_bytes_loop, utf8_to_bytes,
  lead_width, tail_ok, string_loop, is_utf8_string, is_refused,
}
use go_perl.Utf8.Tables.{utf8skip_lem, lead_width_lem, and_c0}
use go_perl.Utf8.Codec.{
  IsScalar, range_cases, encode_1, encode_2, encode_3, encode_4, utf8n_to_uvchr-uvchr_to_utf8,
}

drop-nil : (k : ℕ) → drop {A = ℕ} k [] ≡ []
drop-nil zero = refl
drop-nil (suc k) = refl

get_or-pos : (xs : List ℕ) (i : ℕ) → All (λ x. 1 ≤ x) xs → 1 ≤ get_or xs i 1
get_or-pos [] i h = omega arith
get_or-pos (x ∷ xs) zero h = h.0
get_or-pos (x ∷ xs) (suc i) h = get_or-pos xs i h.1

utf8skip-pos : (c : ℕ) → 1 ≤ utf8skip c
unfolding utf8skip
utf8skip-pos c = get_or-pos utf8skip_v (c / 16) (omega arith)

-- The UTF-8 text of a list of characters.
abbrev pub encode : List ℕ → Bytes
encode [] = []
encode (u ∷ us) = uvchr_to_utf8 u ++ encode us

-- The lead byte of an encoded character determines its width, for the skip table and for the
-- validator.
pub record Encoded (bytes : Bytes) : Type 0 where
  pub lead : ℕ
  pub tail : Bytes
  pub shape : bytes ≡ lead ∷ tail
  pub skips : utf8skip lead ≡ length bytes
  pub width : lead_width lead ≡ length bytes
  pub tail_length : length tail ≤ 3
  pub two : length bytes ≡ 2 → 0xc2 ≤ lead
  pub tails : (rest : Bytes) → tail_ok (length tail) (tail ++ rest) ≡ true

uvchr_to_utf8-Encoded : (u : ℕ) → IsScalar u → Encoded (uvchr_to_utf8 u)
unfolding tail_ok
uvchr_to_utf8-Encoded u h = elim (range_cases u h) [
  | inl a ↦ rw (encode_1 u a) (record {
    lead = u;
    tail = [];
    shape = refl;
    skips = ground (arith, utf8skip_lem u);
    width = ground (arith, lead_width_lem u);
    tail_length = omega arith;
    two = λ e. omega arith;
    tails = λ r. refl;
  })
  | inr (inl (a, b)) ↦ rw (encode_2 u a b) (record {
    lead = 0xc0 + u / 64;
    tail = (0x80 + u % 64) ∷ [];
    shape = refl;
    skips = ground (arith, utf8skip_lem (0xc0 + u / 64));
    width = ground (arith, lead_width_lem (0xc0 + u / 64));
    tail_length = omega arith;
    two = λ e. omega arith;
    tails = λ r. ground (arith, and_c0 (0x80 + u % 64));
  })
  | inr (inr (inl (a, b))) ↦ rw (encode_3 u a b) (record {
    lead = 0xe0 + u / 4096;
    tail = (0x80 + u / 64 % 64) ∷ (0x80 + u % 64) ∷ [];
    shape = refl;
    skips = ground (arith, utf8skip_lem (0xe0 + u / 4096));
    width = ground (arith, lead_width_lem (0xe0 + u / 4096));
    tail_length = omega arith;
    two = λ e. omega arith;
    tails = λ r. ground (arith, and_c0 (0x80 + u % 64), and_c0 (0x80 + u / 64 % 64));
  })
  | inr (inr (inr (a, b))) ↦ rw (encode_4 u a b) (record {
    lead = 0xf0 + u / 262144;
    tail = (0x80 + u / 4096 % 64) ∷ (0x80 + u / 64 % 64) ∷ (0x80 + u % 64) ∷ [];
    shape = refl;
    skips = ground (arith, utf8skip_lem (0xf0 + u / 262144));
    width = ground (arith, lead_width_lem (0xf0 + u / 262144));
    tail_length = omega arith;
    two = λ e. omega arith;
    tails = λ r.
        ground (
          arith,
          and_c0 (0x80 + u % 64),
          and_c0 (0x80 + u / 64 % 64),
          and_c0 (0x80 + u / 4096 % 64),
        );
  })
]

-- One step over an encoded character lands on the next one.
hop-encode : (bytes rest : Bytes) → Encoded bytes → hop_step (bytes ++ rest) ≡ rest
unfolding hop_step
hop-encode bytes rest e = rw (e.shape, e.skips, e.shape) (drop-append_length (e.lead ∷ e.tail) rest)

length_loop-step :
    (fuel n : ℕ) (bytes rest : Bytes)
    → Encoded bytes
    → length_loop (suc fuel) (bytes ++ rest) n ≡ length_loop fuel rest (n + 1)
unfolding length_loop
length_loop-step fuel n bytes rest e =
    let far : drop (utf8skip e.lead) (e.lead ∷ e.tail ++ rest) ≡ rest =
      rw (e.skips, e.shape) (drop-append_length (e.lead ∷ e.tail) rest) in
    ap (λ b. length_loop (suc fuel) (b ++ rest) n) e.shape
    ∙ ap (λ r. length_loop fuel r (n + 1)) far

length_loop-encode :
    (fuel n : ℕ) (us : List ℕ)
    → All IsScalar us
    → length us ≤ fuel
    → length_loop fuel (encode us) n ≡ some (n + length us)
length_loop-encode fuel n [] h l = unfold length_loop in ap some (omega arith)
length_loop-encode zero n (u ∷ us) h l = absurd (omega arith)
length_loop-encode (suc fuel) n (u ∷ us) h l =
    length_loop-step fuel n (uvchr_to_utf8 u) (encode us) (uvchr_to_utf8-Encoded u h.0)
    ∙ length_loop-encode fuel (n + 1) us h.1 (omega arith)
    ∙ ap some (omega arith)

length-encode : (us : List ℕ) → All IsScalar us → length us ≤ length (encode us)
length-encode [] h = omega arith
length-encode (u ∷ us) h =
    let e = uvchr_to_utf8-Encoded u h.0 in
    rw e.shape (omega (arith, length-encode us h.1, length-append e.tail (encode us)))

-- `utf8_length` of an encoded text counts its characters.
pub utf8_length-encode :
    (us : List ℕ) → All IsScalar us → utf8_length (encode us) ≡ some (length us)
unfolding utf8_length
utf8_length-encode us h =
    length_loop-encode (length (encode us)) 0 us h (length-encode us h) ∙ ap some (omega arith)

-- Hopping `k` characters forward leaves the text of the characters from the `k`-th on.
pub utf8_hop-encode :
    (k : ℕ) (us : List ℕ) → All IsScalar us → utf8_hop (encode us) k ≡ encode (drop k us)
unfolding utf8_hop
utf8_hop-encode zero us h = refl
utf8_hop-encode (suc k) [] h = unfold hop_step in utf8_hop-encode k [] tt ∙ ap encode (drop-nil k)
utf8_hop-encode (suc k) (u ∷ us) h =
    rw (hop-encode (uvchr_to_utf8 u) (encode us) (uvchr_to_utf8-Encoded u h.0))
      (utf8_hop-encode k us h.1)

-- The loop over a text of any bytes ends within its fuel.
length_loop-total :
    (fuel n : ℕ) (s : Bytes) → length s ≤ fuel → (r : ℕ) × (length_loop fuel s n ≡ some r)
unfolding length_loop
length_loop-total fuel n [] h = (n, refl)
length_loop-total zero n (c ∷ s) h = absurd (omega arith)
length_loop-total (suc fuel) n (c ∷ s) h =
    length_loop-total fuel (n + 1) (drop (utf8skip c) (c ∷ s))
      (omega (arith, length-drop (utf8skip c) (c ∷ s), utf8skip-pos c))

-- `utf8_length` ends on every buffer.
pub utf8_length_total : (s : Bytes) → (r : ℕ) × (utf8_length s ≡ some r)
unfolding utf8_length
utf8_length_total s = length_loop-total (length s) 0 s (omega arith)

string_loop-step :
    (fuel : ℕ) (bytes rest : Bytes)
    → Encoded bytes
    → string_loop (suc fuel) (bytes ++ rest) ≡ string_loop fuel rest
unfolding string_loop
string_loop-step fuel bytes rest e =
    let w : lead_width e.lead ≡ suc (length e.tail) = e.width ∙ ap length e.shape in
    let far : drop (lead_width e.lead) (e.lead ∷ e.tail ++ rest) ≡ rest =
      rw w (drop-append_length (e.lead ∷ e.tail) rest) in
    rw e.shape (ground (arith, e.two, ap length e.shape, e.tails rest, length-append e.tail rest))

string_loop-encode :
    (fuel : ℕ) (us : List ℕ)
    → All IsScalar us
    → length us ≤ fuel
    → string_loop fuel (encode us) ≡ some true
string_loop-encode fuel [] h l = unfold string_loop in refl
string_loop-encode zero (u ∷ us) h l = absurd (omega arith)
string_loop-encode (suc fuel) (u ∷ us) h l =
    string_loop-step fuel (uvchr_to_utf8 u) (encode us) (uvchr_to_utf8-Encoded u h.0)
    ∙ string_loop-encode fuel us h.1 (omega arith)

-- The validator accepts the text of every list of characters.
pub is_utf8_string-encode : (us : List ℕ) → All IsScalar us → is_utf8_string (encode us) ≡ some true
unfolding is_utf8_string
is_utf8_string-encode us h = string_loop-encode (length (encode us)) us h (length-encode us h)

-- The bytes of a Latin-1 buffer are characters, and its UTF-8 is their text.
encode_bytes-encode : (s : Bytes) → encode_bytes s ≡ encode s
unfolding encode_bytes
encode_bytes-encode [] = refl
encode_bytes-encode (b ∷ s) = ap (λ r. uvchr_to_utf8 b ++ r) (encode_bytes-encode s)

length-uvchr_to_utf8_byte :
    (b : ℕ) → IsByte b → length (uvchr_to_utf8 b) ≡ (if ltb b 0x80 then 1 else 2)
unfolding uvchr_to_utf8
length-uvchr_to_utf8_byte b h = ground arith

-- The first loop of `bytes_to_utf8` computes exactly what the second loop writes, so the
-- allocation of that size and one more byte holds the text and its NUL.
pub length-bytes_to_utf8 :
    (s : Bytes) → All IsByte s → length (bytes_to_utf8 s).0 ≡ (bytes_to_utf8 s).1 + 1
unfolding bytes_to_utf8
length-bytes_to_utf8 s h = omega (arith, length-append (encode_bytes s) (0 ∷ []), size s h)
  where
    size : (t : Bytes) → All IsByte t → length (encode_bytes t) ≡ utf8_size t
    size [] g = refl
    size (b ∷ t) g = omega (
      arith,
      length-append (uvchr_to_utf8 b) (encode_bytes t),
      length-uvchr_to_utf8_byte b g.0,
      size t g.1,
    )

to_bytes_loop-decoded :
    (fuel c b n : ℕ) (t out : Bytes)
    → IsByte b
    → utf8n_to_uvchr (c ∷ t) (length (c ∷ t)) allow_all ≡ some (b, n)
    → to_bytes_loop (suc fuel) (c ∷ t) out ≡ to_bytes_loop fuel (drop n (c ∷ t)) (out ++ (b ∷ []))
unfolding to_bytes_loop
to_bytes_loop-decoded fuel c b n t out h e =
    let small : ltb 0xff b ≡ false = ltb_of_le 0xff b (omega arith) in
    let low : b % 256 ≡ b = omega arith in rw (e, small, low, to_bytes_loop)

to_bytes_loop-step :
    (fuel b : ℕ) (rest out : Bytes)
    → IsByte b
    → to_bytes_loop (suc fuel) (uvchr_to_utf8 b ++ rest) out
      ≡ to_bytes_loop fuel rest (out ++ (b ∷ []))
to_bytes_loop-step fuel b rest out h =
    let e = uvchr_to_utf8-Encoded b (omega arith) in
    let w = uvchr_to_utf8 b in
    let whole : w ++ rest ≡ e.lead ∷ e.tail ++ rest = ap (λ x. x ++ rest) e.shape in
    let decoded : utf8n_to_uvchr (w ++ rest) (length (w ++ rest)) allow_all ≡ some (b, length w) =
      utf8n_to_uvchr-uvchr_to_utf8 allow_all b (length (w ++ rest)) rest (omega arith)
        (omega (arith, length-append w rest))
      ∙ (unfold is_refused in refl) in
    let at_lead =
      subst (λ x. utf8n_to_uvchr x (length x) allow_all ≡ some (b, length w)) whole decoded in
    ap (λ x. to_bytes_loop (suc fuel) x out) whole
    ∙ to_bytes_loop-decoded fuel e.lead b (length w) (e.tail ++ rest) out h at_lead
    ∙ ap (λ x. to_bytes_loop fuel (drop (length w) x) (out ++ (b ∷ []))) (sym whole)
    ∙ ap (λ x. to_bytes_loop fuel x (out ++ (b ∷ []))) (drop-append_length w rest)

to_bytes_loop-encode :
    (fuel : ℕ) (s out : Bytes)
    → All IsByte s
    → length s ≤ fuel
    → to_bytes_loop fuel (encode s) out ≡ some (some (out ++ s))
to_bytes_loop-encode fuel [] out h l =
    unfold to_bytes_loop in ap (λ o. some (some o)) (sym (append-nil out))
to_bytes_loop-encode zero (b ∷ s) out h l = absurd (omega arith)
to_bytes_loop-encode (suc fuel) (b ∷ s) out h l =
    to_bytes_loop-step fuel b (encode s) out h.0
    ∙ to_bytes_loop-encode fuel s (out ++ (b ∷ [])) h.1 (omega arith)
    ∙ ap (λ o. some (some o)) (append_assoc out (b ∷ []) s)

length-le-encode_bytes : (s : Bytes) → All IsByte s → length s ≤ length (encode s)
length-le-encode_bytes [] h = omega arith
length-le-encode_bytes (b ∷ s) h = ground (
  arith,
  length-append (uvchr_to_utf8 b) (encode s),
  length-uvchr_to_utf8_byte b h.0,
  length-le-encode_bytes s h.1,
)

-- Downgrading what `bytes_to_utf8` made, its NUL left out, gives every byte buffer back.
pub utf8_to_bytes-bytes_to_utf8 :
    (s : Bytes) → All IsByte s → utf8_to_bytes (encode_bytes s) ≡ some (some s)
unfolding utf8_to_bytes
utf8_to_bytes-bytes_to_utf8 s h =
    rw (encode_bytes-encode s)
      (to_bytes_loop-encode (length (encode s)) s [] h (length-le-encode_bytes s h))
