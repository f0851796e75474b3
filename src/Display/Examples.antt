-- ===== src/Display/Examples.antt =====
-- A text with a quote and a byte that is no printable character.
use go_perl.Prelude.{ℕ, ◌+◌, ◌<◌, ◌≤◌, ◌≡◌, refl, List, [], ◌∷◌, ◌++◌, length, take}
use go_perl.Display.{display, display_from, escape, dots}
use go_perl.Display.Bounds.{escapes, Ended, display_lem}

abbrev quoted : List ℕ
quoted = b'"' ∷ 0xe9 ∷ b'a' ∷ []

quoted_2 : display 2 quoted ≡ b'\\' ∷ b'"' ∷ b'\\' ∷ b'x' ∷ b'{' ∷ b'e' ∷ b'9' ∷ b'}' ∷ dots
unfolding display display_from escape
quoted_2 = refl

display_lem_example :
    (k : ℕ) × (tail : List ℕ) × (display 2 quoted ≡ escapes (take k quoted) ++ tail)
    × Ended 2 0 quoted k (escapes (take k quoted)) tail
    × ((k ≤ length quoted) × (0 + k ≤ 2))
    × (length (display 2 quoted) < 1024)
display_lem_example = display_lem 2 quoted
