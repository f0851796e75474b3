-- ===== src/Text/Number.antt =====
-- `goperl_grok_number`: what it reads, and the 32-bit limit of the guest.
use go_perl.Prelude.{
  ℕ, ◌+◌, ◌-◌, ◌*◌, ◌<◌, ◌≤◌, ◌≡◌, Bool, true, false, List, [], ◌∷◌, ◌++◌, ltb, if◌then◌else◌,
  length, arith, All,
}
use go_perl.Text.{in_uv, greater_than_uv_max, is_digit, grok_loop, grok_number}

abbrev pub IsDigit : ℕ → Type 0
IsDigit c = (b'0' ≤ c) × (c ≤ b'9')

-- The number that digits spell, behind those that `v` stands for.
abbrev pub value_from : ℕ → List ℕ → ℕ
value_from v [] = v
value_from v (c ∷ s) = value_from (v * 10 + (c - b'0')) s

abbrev pub value : List ℕ → ℕ
value = value_from 0

abbrev pub uv_max : ℕ
uv_max = 0xffffffff

value_from_mono : (v : ℕ) (s : List ℕ) → v ≤ value_from v s
value_from_mono v [] = omega arith
value_from_mono v (c ∷ s) = omega (arith, value_from_mono (v * 10 + (c - b'0')) s)

grok_loop-digits :
    (s : List ℕ) (v : ℕ)
    → All IsDigit s
    → v ≤ uv_max
    → grok_loop s v true
      ≡ (if ltb uv_max (value_from v s) then greater_than_uv_max else in_uv (value_from v s))
unfolding grok_loop is_digit
grok_loop-digits [] v h l = ground arith
grok_loop-digits (c ∷ s) v h l =
    ground
      (arith, value_from_mono (v * 10 + (c - b'0')) s, grok_loop-digits s (v * 10 + (c - b'0')))

-- A non-empty string of decimal digits is read as its value, and as too large exactly above
-- 2^32 - 1.
pub grok_number-value :
    (s : List ℕ)
    → All IsDigit s
    → 0 < length s
    → grok_number s ≡ (if ltb uv_max (value s) then greater_than_uv_max else in_uv (value s))
unfolding grok_number grok_loop is_digit
grok_number-value [] h l = absurd (omega arith)
grok_number-value (c ∷ s) h l = ground (arith, grok_loop-digits s (0 * 10 + (c - b'0')) h.1)

-- What an accepted value says of the rest of the string.
Accepts : List ℕ → ℕ → ℕ → Type 0
Accepts s v r = All IsDigit s × (value_from v s ≡ r) × (r ≤ uv_max)

grok_loop-in_uv : (s : List ℕ) (v r : ℕ) → v ≤ uv_max → grok_loop s v true ≡ in_uv r → Accepts s v r
unfolding grok_loop is_digit Accepts
grok_loop-in_uv [] v r l h = ground arith
grok_loop-in_uv (c ∷ s) v r l h = ground (arith, grok_loop-in_uv s (v * 10 + (c - b'0')) r)

-- A value is stored only for a non-empty string of digits alone, and is that string's value,
-- at most 2^32 - 1.
pub grok_number-in_uv :
    (s : List ℕ) (r : ℕ)
    → grok_number s ≡ in_uv r
    → All IsDigit s × (0 < length s) × (value s ≡ r) × (r ≤ uv_max)
unfolding grok_number grok_loop is_digit Accepts
grok_number-in_uv [] r h = ground arith
grok_number-in_uv (c ∷ s) r h = ground (arith, grok_loop-in_uv s (0 * 10 + (c - b'0')) r)

grok_loop_trailing :
    (s t : List ℕ) (v : ℕ) (seen : Bool)
    → All IsDigit s
    → v ≤ uv_max
    → uv_max < value_from v s
    → grok_loop (s ++ t) v seen ≡ greater_than_uv_max
unfolding grok_loop is_digit
grok_loop_trailing [] t v seen h l k = absurd (omega arith)
grok_loop_trailing (c ∷ s) t v seen h l k =
    ground (arith, grok_loop_trailing s t (v * 10 + (c - b'0')) true)

-- Digits that spell more than 2^32 - 1 are reported as too large, whatever follows them: a string
-- that is no number is not reported as such.
pub grok_number_trailing :
    (s t : List ℕ) → All IsDigit s → uv_max < value s → grok_number (s ++ t) ≡ greater_than_uv_max
unfolding grok_number grok_loop is_digit
grok_number_trailing [] t h l = absurd (omega arith)
grok_number_trailing (c ∷ s) t h l =
    ground (arith, grok_loop_trailing (c ∷ s) t 0 false h (omega arith) l)
