-- ===== src/Utf8/Tables.antt =====
-- The byte operations of the UTF-8 toolkit as arithmetic, each checked at every byte.
use go_perl.Prelude.{
  ℕ, ◌+◌, ◌*◌, ◌%◌, ◌/◌, ◌<◌, bit_and, bit_or, ◌≡◌, refl, true, ◌&&◌, ltb, leb, if◌then◌else◌,
  agree_below, agree_below-eq, arith,
}
use go_perl.Utf8.{IsByte, utf8skip, is_continuation, lead_width}

by_table : (f g : ℕ → ℕ) (n : ℕ) → agree_below f g n ≡ true → (x : ℕ) → x < n → f x ≡ g x
by_table f g n t x h = agree_below-eq f g n x h t

pub or_80 : (x : ℕ) → x < 64 → bit_or 0x80 x ≡ 0x80 + x
unfolding agree_below
or_80 = by_table (λ x. bit_or 0x80 x) (λ x. 0x80 + x) 64 refl

pub or_c0 : (x : ℕ) → x < 32 → bit_or 0xc0 x ≡ 0xc0 + x
unfolding agree_below
or_c0 = by_table (λ x. bit_or 0xc0 x) (λ x. 0xc0 + x) 32 refl

pub or_e0 : (x : ℕ) → x < 16 → bit_or 0xe0 x ≡ 0xe0 + x
unfolding agree_below
or_e0 = by_table (λ x. bit_or 0xe0 x) (λ x. 0xe0 + x) 16 refl

pub or_f0 : (x : ℕ) → x < 8 → bit_or 0xf0 x ≡ 0xf0 + x
unfolding agree_below
or_f0 = by_table (λ x. bit_or 0xf0 x) (λ x. 0xf0 + x) 8 refl

pub and_1f : (c : ℕ) → IsByte c → bit_and c 0x1f ≡ c % 32
unfolding agree_below
and_1f = by_table (λ x. bit_and x 0x1f) (λ x. x % 32) 256 refl

pub and_0f : (c : ℕ) → IsByte c → bit_and c 0x0f ≡ c % 16
unfolding agree_below
and_0f = by_table (λ x. bit_and x 0x0f) (λ x. x % 16) 256 refl

pub and_07 : (c : ℕ) → IsByte c → bit_and c 0x07 ≡ c % 8
unfolding agree_below
and_07 = by_table (λ x. bit_and x 0x07) (λ x. x % 8) 256 refl

pub and_c0 : (c : ℕ) → IsByte c → bit_and c 0xc0 ≡ c / 64 * 64
unfolding agree_below
and_c0 = by_table (λ x. bit_and x 0xc0) (λ x. x / 64 * 64) 256 refl

pub utf8skip_lem :
    (c : ℕ)
    → IsByte c
    → utf8skip c ≡ (if ltb c 0xc0 then 1 else if ltb c 0xe0 then 2 else if ltb c 0xf0 then 3 else 4)
unfolding agree_below utf8skip
utf8skip_lem =
    by_table utf8skip
      (λ c. if ltb c 0xc0 then 1 else if ltb c 0xe0 then 2 else if ltb c 0xf0 then 3 else 4) 256
      refl

pub lead_width_lem :
    (c : ℕ)
    → IsByte c
    → lead_width c ≡ (
        if ltb c 0x80
        then 1
        else if ltb c 0xc0
        then 0
        else if ltb c 0xe0
        then 2
        else if ltb c 0xf0
        then 3
        else if ltb c 0xf8
        then 4
        else 0)
unfolding agree_below lead_width
lead_width_lem =
    by_table lead_width
      (λ c.
        if ltb c 0x80
        then 1
        else if ltb c 0xc0
        then 0
        else if ltb c 0xe0
        then 2
        else if ltb c 0xf0
        then 3
        else if ltb c 0xf8
        then 4
        else 0)
      256 refl

pub is_continuation_lem : (c : ℕ) → IsByte c → is_continuation c ≡ (leb 0x80 c && ltb c 0xc0)
unfolding is_continuation
is_continuation_lem c h = ground (arith, and_c0 (c % 256), and_c0 c h)
