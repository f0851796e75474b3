-- ===== src/Utf8/Canonical.antt =====
-- The decoder accepts no encoding but the one that the encoder writes.
use go_perl.Prelude.{◌≢◌}
use go_perl.Prelude.{
  ℕ, ◌<◌, ◌≤◌, ◌≡◌, false, some, [], ◌∷◌, ◌++◌, arith, ◌⊎◌, inl, inr, ◌∙◌, sym, drop, All,
}
use mathlib.Core.Path.{ap₂}
use go_perl.Utf8.{
  IsByte, Bytes, Flags, decode_tail, is_overlong, check_uv, utf8n_to_uvchr, uvchr_to_utf8,
}
use go_perl.Utf8.Tables.{utf8skip_lem, is_continuation_lem}
use go_perl.Utf8.Codec.{
  encode_1, encode_2, encode_3, encode_4, decode_1, decode_2, decode_3, decode_4,
}

-- A byte that starts a character: ASCII, or a lead of two to four bytes.
abbrev pub IsLead : ℕ → Type 0
IsLead c = (c < 0x80) ⊎ ((0xc0 ≤ c) × (c < 0xf8))

check_uv-eq-some :
    (flags : Flags) (w u : ℕ) {uv n : ℕ}
    → check_uv flags w u ≡ some (uv, n)
    → (is_overlong w u ≡ false) × (uv ≡ u) × (n ≡ w)
unfolding check_uv
check_uv-eq-some flags w u h = ground arith

cons_3 : {a b c x y z : ℕ} (t : Bytes) → a ≡ x → b ≡ y → c ≡ z → (a ∷ b ∷ c ∷ t) ≡ (x ∷ y ∷ z ∷ t)
cons_3 t p q r = cc

lead_cases :
    (c : ℕ)
    → IsLead c
    → (c < 0x80) ⊎ ((0xc0 ≤ c) × (c < 0xe0)) ⊎ ((0xe0 ≤ c) × (c < 0xf0)) ⊎ ((0xf0 ≤ c) × (c < 0xf8))
lead_cases c h = omega arith

abbrev pub Cont : ℕ → Type 0
Cont b = (0x80 ≤ b) × (b < 0xc0)

-- A successful decode has its continuation bytes.
module _ (flags : Flags) (len c : ℕ) {uv n : ℕ} where
  conts_2 :
      (b : ℕ) (t : Bytes)
      → IsByte c
      → IsByte b
      → 0xc0 ≤ c
      → c < 0xe0
      → utf8n_to_uvchr (c ∷ b ∷ t) len flags ≡ some (uv, n)
      → Cont b × (2 ≤ len)
  unfolding utf8n_to_uvchr decode_tail
  conts_2 b t hc hb l g h = ground (arith, utf8skip_lem c, is_continuation_lem b)

  conts_3 :
      (b d : ℕ) (t : Bytes)
      → IsByte c
      → IsByte b
      → IsByte d
      → 0xe0 ≤ c
      → c < 0xf0
      → utf8n_to_uvchr (c ∷ b ∷ d ∷ t) len flags ≡ some (uv, n)
      → Cont b × Cont d × (3 ≤ len)
  unfolding utf8n_to_uvchr decode_tail
  conts_3 b d t hc hb hd l g h =
      ground (arith, utf8skip_lem c, is_continuation_lem b, is_continuation_lem d)

  conts_4 :
      (b d e : ℕ) (t : Bytes)
      → IsByte c
      → IsByte b
      → IsByte d
      → IsByte e
      → 0xf0 ≤ c
      → utf8n_to_uvchr (c ∷ b ∷ d ∷ e ∷ t) len flags ≡ some (uv, n)
      → Cont b × Cont d × Cont e × (4 ≤ len)
  unfolding utf8n_to_uvchr decode_tail
  conts_4 b d e t hc hb hd he l h =
      ground
        (arith, utf8skip_lem c, is_continuation_lem b, is_continuation_lem d, is_continuation_lem e)

Canonical : Bytes → ℕ → ℕ → Type 0
Canonical s uv n = uvchr_to_utf8 uv ++ drop n s ≡ s

module _ (flags : Flags) (len c : ℕ) {uv n : ℕ} where
  respell_1 :
      (s : Bytes)
      → c < 0x80
      → utf8n_to_uvchr (c ∷ s) len flags ≡ some (uv, n)
      → Canonical (c ∷ s) uv n
  unfolding utf8n_to_uvchr Canonical
  respell_1 s g h =
      let e : (uv ≡ c) × (n ≡ 1) = ground (arith, utf8skip_lem c) in rw (e.0, e.1, encode_1 c g)

  respell_2 :
      (s : Bytes)
      → All IsByte (c ∷ s)
      → 0xc0 ≤ c
      → c < 0xe0
      → utf8n_to_uvchr (c ∷ s) len flags ≡ some (uv, n)
      → Canonical (c ∷ s) uv n
  unfolding Canonical is_overlong
  respell_2 [] bs l g h =
      absurd (unfold utf8n_to_uvchr decode_tail in ground (arith, utf8skip_lem c))
  respell_2 (b ∷ t) bs l g h =
      let (cb, e) = conts_2 flags len c b t (omega arith) (omega arith) l g h in
      let (ov, eu, en) =
        check_uv-eq-some flags 2 _ (sym (decode_2 flags t len c b l g cb.0 cb.1 e) ∙ h) in
      rw (en, encode_2 uv (ground arith) (omega arith))
        (ap₂ (λ x y. x ∷ y ∷ t) (omega arith) (omega arith))

  respell_3 :
      (s : Bytes)
      → All IsByte (c ∷ s)
      → 0xe0 ≤ c
      → c < 0xf0
      → utf8n_to_uvchr (c ∷ s) len flags ≡ some (uv, n)
      → Canonical (c ∷ s) uv n
  unfolding Canonical is_overlong
  respell_3 [] bs l g h =
      absurd (unfold utf8n_to_uvchr decode_tail in ground (arith, utf8skip_lem c))
  respell_3 (b ∷ []) bs l g h =
      absurd (unfold utf8n_to_uvchr decode_tail in ground (arith, utf8skip_lem c))
  respell_3 (b ∷ d ∷ t) bs l g h =
      let (cb, cd, e) = conts_3 flags len c b d t (omega arith) (omega arith) (omega arith) l g h in
      let (ov, eu, en) =
        check_uv-eq-some flags 3 _ (sym (decode_3 flags t len c b d l g cb cd e) ∙ h) in
      rw (en, encode_3 uv (ground arith) (omega arith))
        (cons_3 t (omega arith) (omega arith) (omega arith))

  respell_4 :
      (s : Bytes)
      → All IsByte (c ∷ s)
      → 0xf0 ≤ c
      → c < 0xf8
      → utf8n_to_uvchr (c ∷ s) len flags ≡ some (uv, n)
      → Canonical (c ∷ s) uv n
  unfolding Canonical is_overlong
  respell_4 [] bs l g h =
      absurd (unfold utf8n_to_uvchr decode_tail in ground (arith, utf8skip_lem c))
  respell_4 (b ∷ []) bs l g h =
      absurd (unfold utf8n_to_uvchr decode_tail in ground (arith, utf8skip_lem c))
  respell_4 (b ∷ d ∷ []) bs l g h =
      absurd (unfold utf8n_to_uvchr decode_tail in ground (arith, utf8skip_lem c))
  respell_4 (b ∷ d ∷ e ∷ t) bs l g h =
      let (cb, cd, ce, k) =
        conts_4 flags len c b d e t (omega arith) (omega arith) (omega arith) (omega arith) l h in
      let (ov, eu, en) =
        check_uv-eq-some flags 4 _
          (sym (decode_4 flags t len c b d e l (omega arith) cb cd ce k) ∙ h) in
      rw (en, encode_4 uv (ground arith) (omega arith))
        (ap₂ (λ x y. x ∷ y) (omega arith) (cons_3 t (omega arith) (omega arith) (omega arith)))

-- A decode that succeeds at a lead byte consumes exactly the bytes that the encoder writes for its
-- result: no overlong form and no other spelling of a character is accepted there.
pub uvchr_to_utf8-utf8n_to_uvchr :
    (flags : Flags) (len c : ℕ) (s : Bytes) {uv n : ℕ}
    → All IsByte (c ∷ s)
    → IsLead c
    → utf8n_to_uvchr (c ∷ s) len flags ≡ some (uv, n)
    → uvchr_to_utf8 uv ++ drop n (c ∷ s) ≡ c ∷ s
unfolding Canonical
uvchr_to_utf8-utf8n_to_uvchr flags len c s bs lead = elim (lead_cases c lead) [
  | inl g ↦ respell_1 flags len c s g
  | inr (inl (l, g)) ↦ respell_2 flags len c s bs l g
  | inr (inr (inl (l, g))) ↦ respell_3 flags len c s bs l g
  | inr (inr (inr (l, g))) ↦ respell_4 flags len c s bs l g
]

-- A stray continuation byte is no encoding, and the decoder returns it as a character.
pub utf8n_to_uvchr_stray :
    (flags : Flags) (len c : ℕ) (s : Bytes)
    → 0x80 ≤ c
    → c < 0xc0
    → 1 ≤ len
    → (utf8n_to_uvchr (c ∷ s) len flags ≡ some (c, 1)) × (uvchr_to_utf8 c ++ s ≢ c ∷ s)
utf8n_to_uvchr_stray flags len c s l g k =
    (decode_1 flags s len c g k, rw (encode_2 c l (omega arith)) (λ e. ground arith))
