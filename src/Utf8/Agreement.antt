-- ===== src/Utf8/Agreement.antt =====
-- Where the decoders and the validator agree, and where they do not.
use go_perl.Prelude.{not, ◌&&◌}
use go_perl.Prelude.{
  ℕ, zero, suc, ◌+◌, ◌/◌, ◌<◌, ◌≤◌, ◌≡◌, refl, true, false, ltb, ◌-◌, ◌==◌, Bool-cases,
  if◌then◌else◌, Option, Bool, none, some, [], ◌∷◌, ◌++◌, length, length-drop, arith, inl, inr, ◌∙◌,
  drop,
}
use go_perl.Utf8.{
  Bytes, allow_all, utf8n_to_uvchr, uvchr_to_utf8, lead_width, tail_ok, string_loop, is_utf8_string,
  is_overlong, check_uv, fold_tail, cp_width, utf8_cp,
}
use go_perl.Utf8.Tables.{and_c0, and_1f, and_0f, and_07}
use go_perl.Utf8.Codec.{IsScalar, range_cases, encode_1, encode_2, encode_3, encode_4, decode_3}

branch_total :
    (b x : Bool) (o : Option Bool)
    → (r : Bool) × (o ≡ some r)
    → (r : Bool) × ((if b then some x else o) ≡ some r)
branch_total true x o h = (x, refl)
branch_total false x o h = h

string_loop-total :
    (fuel : ℕ) (s : Bytes) → length s ≤ fuel → (r : Bool) × (string_loop fuel s ≡ some r)
unfolding string_loop
string_loop-total fuel [] h = (true, refl)
string_loop-total zero (c ∷ s) h = absurd (omega arith)
string_loop-total (suc fuel) (c ∷ s) h = elim (Bool-cases (lead_width c == 0)) [
  | inl z ↦ (false, rw z)
  | inr pos ↦
      let rest =
        string_loop-total fuel (drop (lead_width c) (c ∷ s))
          (ground (arith, length-drop (lead_width c) (c ∷ s))) in
      branch_total (lead_width c == 0) false _ (
        branch_total (ltb (suc (length s)) (lead_width c)) false _ (
          branch_total (not (tail_ok (lead_width c - 1) s)) false _
            (branch_total (lead_width c == 2 && ltb c 0xc2) false _ rest)))
]

-- `is_utf8_string` answers for every buffer.
pub is_utf8_string_total : (s : Bytes) → (r : Bool) × (is_utf8_string s ≡ some r)
unfolding is_utf8_string
is_utf8_string_total s = string_loop-total (length s) s (omega arith)

-- On the three-byte overlong forms the two disagree: the validator accepts each of them, and the
-- decoder calls it malformed.
pub is_utf8_string_overlong :
    (b d : ℕ)
    → 0x80 ≤ b
    → b < 0xa0
    → 0x80 ≤ d
    → d < 0xc0
    → (is_utf8_string (0xe0 ∷ b ∷ d ∷ []) ≡ some true)
      × (utf8n_to_uvchr (0xe0 ∷ b ∷ d ∷ []) 3 allow_all ≡ none)
unfolding is_utf8_string string_loop tail_ok lead_width check_uv is_overlong
is_utf8_string_overlong b d lb hb ld hd = (
  ground (arith, and_c0 b, and_c0 d),
  decode_3 allow_all [] 3 0xe0 b d (omega arith) (omega arith) (omega arith) (omega arith)
        (omega arith)
      ∙ ground arith,
)

-- The lexer's decoder reads the character that stands at the start of a text, as the checking
-- decoder does.
pub utf8_cp-uvchr_to_utf8 :
    (u : ℕ) (rest : Bytes)
    → IsScalar u
    → (c : ℕ) × (s : Bytes) × (uvchr_to_utf8 u ++ rest ≡ c ∷ s) × (utf8_cp c s ≡ u)
unfolding utf8_cp fold_tail cp_width
utf8_cp-uvchr_to_utf8 u rest h = elim (range_cases u h) [
  | inl a ↦ rw (encode_1 u a) (u, rest, refl, ground arith)
  | inr (inl (a, b)) ↦ rw (encode_2 u a b) (_, _, refl, ground (arith, and_1f (0xc0 + u / 64)))
  | inr (inr (inl (a, b))) ↦
      rw (encode_3 u a b) (_, _, refl, ground (arith, and_0f (0xe0 + u / 4096)))
  | inr (inr (inr (a, b))) ↦
      rw (encode_4 u a b) (_, _, refl, ground (arith, and_07 (0xf0 + u / 262144)))
]
