-- ===== src/Utf8/Examples.antt =====
-- The UTF-8 theorems at concrete texts.
use go_perl.Prelude.{ℕ, ◌≡◌, inr, refl, true, some, List, [], ◌∷◌, ◌++◌, arith}
use go_perl.Utf8.{
  Flags, utf8n_to_uvchr, uvchr_to_utf8, is_refused, decode_tail, is_continuation, check_uv,
  is_overlong, utf8skip,
}
use go_perl.Utf8.Codec.{utf8n_to_uvchr-uvchr_to_utf8}
use go_perl.Utf8.Canonical.{uvchr_to_utf8-utf8n_to_uvchr}

-- `strict` refuses surrogates and what lies above Unicode.
abbrev strict : Flags
strict = record { disallow_super = true; disallow_surrogate = true }

-- U+0061, U+00E9, U+20AC, U+1F600
abbrev text : List ℕ
text = 0x61 ∷ 0xe9 ∷ 0x20ac ∷ 0x1f600 ∷ []

abbrev text_bytes : List ℕ
text_bytes = 0x61 ∷ 0xc3 ∷ 0xa9 ∷ 0xe2 ∷ 0x82 ∷ 0xac ∷ 0xf0 ∷ 0x9f ∷ 0x98 ∷ 0x80 ∷ []

utf8n_to_uvchr-uvchr_to_utf8_example :
    utf8n_to_uvchr (0xe2 ∷ 0x82 ∷ 0xac ∷ 0x21 ∷ []) 4 strict ≡ some (0x20ac, 3)
unfolding uvchr_to_utf8 is_refused
utf8n_to_uvchr-uvchr_to_utf8_example =
    utf8n_to_uvchr-uvchr_to_utf8 strict 0x20ac 4 (0x21 ∷ []) (omega arith) (omega arith)

decoded : utf8n_to_uvchr (0xc3 ∷ 0xa9 ∷ 0x21 ∷ []) 3 strict ≡ some (0xe9, 2)
unfolding utf8n_to_uvchr decode_tail utf8skip is_continuation check_uv is_overlong is_refused
decoded = refl

uvchr_to_utf8-utf8n_to_uvchr_example : uvchr_to_utf8 0xe9 ++ (0x21 ∷ []) ≡ 0xc3 ∷ 0xa9 ∷ 0x21 ∷ []
uvchr_to_utf8-utf8n_to_uvchr_example =
    uvchr_to_utf8-utf8n_to_uvchr strict 3 0xc3 (0xa9 ∷ 0x21 ∷ []) (omega arith) (inr (omega arith))
      decoded
