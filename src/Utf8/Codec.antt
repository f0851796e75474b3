-- ===== src/Utf8/Codec.antt =====
-- One character: `goperl_uvchr_to_utf8` against `goperl_utf8n_to_uvchr`.
use go_perl.Prelude.{
  ℕ, ◌+◌, ◌*◌, ◌%◌, ◌/◌, ◌<◌, ◌≤◌, ◌≡◌, false, if◌then◌else◌, Option, none, some, [], ◌∷◌, ◌++◌,
  length, arith, ◌⊎◌, inl, inr, ap, ◌∙◌,
}
use go_perl.Utf8.{
  Bytes, Flags, decode_tail, is_overlong, is_refused, check_uv, utf8n_to_uvchr, uvchr_to_utf8,
}
use go_perl.Utf8.Tables.{
  or_80, or_c0, or_e0, or_f0, and_1f, and_0f, and_07, utf8skip_lem, is_continuation_lem,
}

-- The characters that four bytes can hold.
abbrev pub IsScalar : ℕ → Type 0
IsScalar uv = uv < 0x20_0000

-- What the encoder writes, as sums.
pub encode_1 : (uv : ℕ) → uv < 0x80 → uvchr_to_utf8 uv ≡ uv ∷ []
unfolding uvchr_to_utf8
encode_1 uv h = ground arith

pub encode_2 :
    (uv : ℕ) → 0x80 ≤ uv → uv < 0x800 → uvchr_to_utf8 uv ≡ (0xc0 + uv / 64) ∷ (0x80 + uv % 64) ∷ []
unfolding uvchr_to_utf8
encode_2 uv l h = ground (arith, or_c0 (uv / 64), or_80 (uv % 64))

pub encode_3 :
    (uv : ℕ)
    → 0x800 ≤ uv
    → uv < 0x10000
    → uvchr_to_utf8 uv ≡ (0xe0 + uv / 4096) ∷ (0x80 + uv / 64 % 64) ∷ (0x80 + uv % 64) ∷ []
unfolding uvchr_to_utf8
encode_3 uv l h = ground (arith, or_e0 (uv / 4096), or_80 (uv / 64 % 64), or_80 (uv % 64))

pub encode_4 :
    (uv : ℕ)
    → 0x10000 ≤ uv
    → IsScalar uv
    → uvchr_to_utf8 uv
      ≡ (0xf0 + uv / 262144)
        ∷ (0x80 + uv / 4096 % 64)
        ∷ (0x80 + uv / 64 % 64)
        ∷ (0x80 + uv % 64)
        ∷ []
unfolding uvchr_to_utf8
encode_4 uv l h =
    ground
      (arith, or_f0 (uv / 262144), or_80 (uv / 4096 % 64), or_80 (uv / 64 % 64), or_80 (uv % 64))

-- What the decoder does behind each kind of lead byte.
module _ (flags : Flags) (s : Bytes) (len : ℕ) where
  pub decode_1 : (c : ℕ) → c < 0xc0 → 1 ≤ len → utf8n_to_uvchr (c ∷ s) len flags ≡ some (c, 1)
  unfolding utf8n_to_uvchr
  decode_1 c h l = ground (arith, utf8skip_lem c)

  pub decode_2 :
      (c b : ℕ)
      → 0xc0 ≤ c
      → c < 0xe0
      → 0x80 ≤ b
      → b < 0xc0
      → 2 ≤ len
      → utf8n_to_uvchr (c ∷ b ∷ s) len flags ≡ check_uv flags 2 (c % 32 * 64 + b % 64)
  unfolding utf8n_to_uvchr decode_tail
  decode_2 c b l h lb hb n = ground (arith, utf8skip_lem c, is_continuation_lem b, and_1f c)

  pub decode_3 :
      (c b d : ℕ)
      → 0xe0 ≤ c
      → c < 0xf0
      → (0x80 ≤ b) × (b < 0xc0)
      → (0x80 ≤ d) × (d < 0xc0)
      → 3 ≤ len
      → utf8n_to_uvchr (c ∷ b ∷ d ∷ s) len flags
        ≡ check_uv flags 3 ((c % 16 * 64 + b % 64) * 64 + d % 64)
  unfolding utf8n_to_uvchr decode_tail
  decode_3 c b d l h hb hd n =
      ground (arith, utf8skip_lem c, is_continuation_lem b, is_continuation_lem d, and_0f c)

  pub decode_4 :
      (c b d e : ℕ)
      → 0xf0 ≤ c
      → c < 0x100
      → (0x80 ≤ b) × (b < 0xc0)
      → (0x80 ≤ d) × (d < 0xc0)
      → (0x80 ≤ e) × (e < 0xc0)
      → 4 ≤ len
      → utf8n_to_uvchr (c ∷ b ∷ d ∷ e ∷ s) len flags
        ≡ check_uv flags 4 (((c % 8 * 64 + b % 64) * 64 + d % 64) * 64 + e % 64)
  unfolding utf8n_to_uvchr decode_tail
  decode_4 c b d e l h hb hd he n = ground (
    arith,
    utf8skip_lem c,
    is_continuation_lem b,
    is_continuation_lem d,
    is_continuation_lem e,
    and_07 c,
  )

-- The flags turn a well-formed character down exactly by `is_refused`.
abbrev pub accepted : Flags → ℕ → ℕ → Option (ℕ × ℕ)
accepted flags uv n = if is_refused flags uv then none else some (uv, n)

check_uv_lem :
    (flags : Flags) (n uv : ℕ)
    → is_overlong n uv ≡ false
    → check_uv flags n uv ≡ accepted flags uv n
unfolding check_uv
check_uv_lem flags n uv h = rw h

RoundTrip : Flags → ℕ → ℕ → Bytes → Type 0
RoundTrip flags uv len rest =
    length (uvchr_to_utf8 uv) ≤ len
    → utf8n_to_uvchr (uvchr_to_utf8 uv ++ rest) len flags
      ≡ accepted flags uv (length (uvchr_to_utf8 uv))

module _ (flags : Flags) (uv len : ℕ) (rest : Bytes) where
  round_1 : uv < 0x80 → RoundTrip flags uv len rest
  unfolding RoundTrip is_refused
  round_1 h =
      rw (encode_1 uv h)
        (λ l. decode_1 flags rest len uv (omega arith) (omega arith) ∙ ground arith)

  round_2 : 0x80 ≤ uv → uv < 0x800 → RoundTrip flags uv len rest
  unfolding RoundTrip is_overlong
  round_2 g h = rw (encode_2 uv g h) (λ l.
      decode_2 flags rest len _ _ (omega arith) (omega arith) (omega arith) (omega arith) l
      ∙ ap (check_uv flags 2) (omega arith)
      ∙ check_uv_lem flags 2 uv (ground arith))

  round_3 : 0x800 ≤ uv → uv < 0x10000 → RoundTrip flags uv len rest
  unfolding RoundTrip is_overlong
  round_3 g h = rw (encode_3 uv g h) (λ l.
      decode_3 flags rest len _ _ _ (omega arith) (omega arith) (omega arith) (omega arith) l
      ∙ ap (check_uv flags 3) (omega arith)
      ∙ check_uv_lem flags 3 uv (ground arith))

  round_4 : 0x10000 ≤ uv → IsScalar uv → RoundTrip flags uv len rest
  unfolding RoundTrip is_overlong
  round_4 g h = rw (encode_4 uv g h) (λ l.
      decode_4 flags rest len _ _ _ _ (omega arith) (omega arith) (omega arith) (omega arith)
        (omega arith) l
      ∙ ap (check_uv flags 4) (omega arith)
      ∙ check_uv_lem flags 4 uv (ground arith))

-- Which of the four ranges a character is in.
pub range_cases :
    (uv : ℕ)
    → IsScalar uv
    → (uv < 0x80)
      ⊎ ((0x80 ≤ uv) × (uv < 0x800))
      ⊎ ((0x800 ≤ uv) × (uv < 0x10000))
      ⊎ ((0x10000 ≤ uv) × (uv < 0x20_0000))
range_cases uv h = omega arith

-- Decoding what the encoder wrote gives the character back with the number of bytes written,
-- whatever stands behind them and however much longer the buffer is, for each character below
-- 0x200000 that the flags do not refuse; those that they refuse are malformed.
pub utf8n_to_uvchr-uvchr_to_utf8 :
    (flags : Flags) (uv len : ℕ) (rest : Bytes)
    → IsScalar uv
    → length (uvchr_to_utf8 uv) ≤ len
    → utf8n_to_uvchr (uvchr_to_utf8 uv ++ rest) len flags
      ≡ accepted flags uv (length (uvchr_to_utf8 uv))
unfolding RoundTrip
utf8n_to_uvchr-uvchr_to_utf8 flags uv len rest h = elim (range_cases uv h) [
  | inl a ↦ round_1 flags uv len rest a
  | inr (inl (a, b)) ↦ round_2 flags uv len rest a b
  | inr (inr (inl (a, b))) ↦ round_3 flags uv len rest a b
  | inr (inr (inr (a, b))) ↦ round_4 flags uv len rest a b
]
