-- ===== src/Text/Examples.antt =====
-- The theorems on the text helpers at concrete strings.
use go_perl.Prelude.{ℕ, ◌≡◌, refl, some, List, [], ◌∷◌}
use go_perl.Text.{in_uv, grok_loop, is_digit, ninstr_loop, mem_eq, grok_number, ninstr}
use go_perl.Text.Search.{First, ninstr-First}

-- "42" and "4294967296"
abbrev digits_42 : List ℕ
digits_42 = b'4' ∷ b'2' ∷ []

abbrev digits_big : List ℕ
digits_big = b'4' ∷ b'2' ∷ b'9' ∷ b'4' ∷ b'9' ∷ b'6' ∷ b'7' ∷ b'2' ∷ b'9' ∷ b'6' ∷ []

read_42 : grok_number digits_42 ≡ in_uv 42
unfolding grok_number grok_loop is_digit
read_42 = refl

ninstr-First_example : First (1 ∷ 2 ∷ []) (0 ∷ 1 ∷ 2 ∷ 1 ∷ 2 ∷ []) (some 1)
unfolding ninstr ninstr_loop mem_eq
ninstr-First_example = ninstr-First (0 ∷ 1 ∷ 2 ∷ 1 ∷ 2 ∷ []) (1 ∷ 2 ∷ [])
