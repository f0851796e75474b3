-- ===== src/Utf8.antt =====
-- The UTF-8 toolkit of xs/sdk/include/perl.h over byte lists: a pointer into a buffer is the list
-- of the bytes from it on, and a pointer past the end is the empty list.
mod Tables
pub mod Codec
pub mod Agreement
pub mod Strings
pub mod Canonical
pub mod Examples
use go_perl.Prelude.{
  ℕ, zero, suc, ◌+◌, ◌*◌, ◌/◌, ◌%◌, ◌<◌, bit_and, bit_or, Bool, true, false, ◌&&◌, ◌||◌, Option,
  none, some, List, [], ◌∷◌, ◌++◌, ltb, leb, ◌==◌, if◌then◌else◌, length, get_or, drop, ◌-◌, not,
  ◌^◌,
}

abbrev pub IsByte : ℕ → Type 0
IsByte b = b < 256

abbrev pub Bytes : Type 0
Bytes = List ℕ

-- `goperl_utf8skip_v`
abbrev pub utf8skip_v : List ℕ
utf8skip_v = 1 ∷ 1 ∷ 1 ∷ 1 ∷ 1 ∷ 1 ∷ 1 ∷ 1 ∷ 1 ∷ 1 ∷ 1 ∷ 1 ∷ 2 ∷ 2 ∷ 3 ∷ 4 ∷ []

-- `UTF8SKIP`, of the byte that the pointer is at
pub utf8skip : ℕ → ℕ
utf8skip c = get_or utf8skip_v (c / 16) 1

pub is_continuation : ℕ → Bool
is_continuation c = bit_and (c % 256) 0xc0 == 0x80

-- `(uv << 6) | (b & 0x3f)`: the low six bits are free after the shift.
abbrev pub append_bits : ℕ → ℕ → ℕ
append_bits uv b = uv * 64 + b % 64

pub record Flags : Type 0 where
  pub disallow_super : Bool
  pub disallow_surrogate : Bool

abbrev pub allow_all : Flags
allow_all = record { disallow_super = false; disallow_surrogate = false }

-- The loop over the continuation bytes, `left` of them to go.
pub decode_tail : ℕ → Bytes → ℕ → Option ℕ
decode_tail zero s uv = some uv
decode_tail (suc left) [] uv = none
decode_tail (suc left) (b ∷ s) uv =
    let rest = decode_tail left s (append_bits uv b) in if is_continuation b then rest else none

pub is_overlong : ℕ → ℕ → Bool
is_overlong n uv = (n == 2 && ltb uv 0x80) || (n == 3 && ltb uv 0x800) || (n == 4 && ltb uv 0x10000)

pub is_refused : Flags → ℕ → Bool
is_refused flags uv =
    (flags.disallow_surrogate && (leb 0xd800 uv && leb uv 0xdfff))
    || (flags.disallow_super && ltb 0x10ffff uv)

pub check_uv : Flags → ℕ → ℕ → Option (ℕ × ℕ)
check_uv flags n uv =
    if is_overlong n uv then none else if is_refused flags uv then none else some (uv, n)

-- `none` is the label `fail`: 0 with `*retlen` set to -1. Else the code point and `*retlen`.
pub utf8n_to_uvchr : Bytes → ℕ → Flags → Option (ℕ × ℕ)
unfolding is_overlong is_refused check_uv
utf8n_to_uvchr [] curlen flags = none
utf8n_to_uvchr (c ∷ s) curlen flags =
    let n = utf8skip c in
    if curlen == 0 || ltb curlen n
    then none
    else if n == 1
    then some (c, 1)
    else elim (decode_tail (n - 1) s (bit_and c (0x7f / 2 ^ n))) [
      | none ↦ none
      | some uv ↦ check_uv flags n uv
    ]

-- The bytes that are written at `d`, each cast to `U8`.
pub uvchr_to_utf8 : ℕ → Bytes
uvchr_to_utf8 uv =
    if ltb uv 0x80
    then uv % 256 ∷ []
    else if ltb uv 0x800
    then bit_or 0xc0 (uv / 64) % 256 ∷ bit_or 0x80 (uv % 64) % 256 ∷ []
    else if ltb uv 0x10000
    then bit_or 0xe0 (uv / 4096) % 256
      ∷ bit_or 0x80 (uv / 64 % 64) % 256
      ∷ bit_or 0x80 (uv % 64) % 256
      ∷ []
    else bit_or 0xf0 (uv / 262144) % 256
      ∷ bit_or 0x80 (uv / 4096 % 64) % 256
      ∷ bit_or 0x80 (uv / 64 % 64) % 256
      ∷ bit_or 0x80 (uv % 64) % 256
      ∷ []

-- The loop `while (s < e) { s += UTF8SKIP(s); n++; }`, the rest of the buffer as the list.
pub length_loop : ℕ → Bytes → ℕ → Option ℕ
length_loop fuel [] n = some n
length_loop zero (c ∷ s) n = none
length_loop (suc fuel) (c ∷ s) n = length_loop fuel (drop (utf8skip c) (c ∷ s)) (n + 1)

-- Each round moves by a byte at least, so `length s` rounds are enough.
pub utf8_length : Bytes → Option ℕ
unfolding length_loop
utf8_length s = length_loop (length s) s 0

pub hop_step : Bytes → Bytes
hop_step [] = []
hop_step (c ∷ s) = drop (utf8skip c) (c ∷ s)

-- `while (off-- > 0) s += UTF8SKIP(s);` for `off` at least 0; a negative `off` makes no round.
pub utf8_hop : Bytes → ℕ → Bytes
unfolding hop_step
utf8_hop s zero = s
utf8_hop s (suc off) = utf8_hop (hop_step s) off

-- The first loop of `goperl_bytes_to_utf8`: the size that is allocated, without the NUL.
pub utf8_size : Bytes → ℕ
utf8_size [] = 0
utf8_size (b ∷ s) = (if ltb b 0x80 then 1 else 2) + utf8_size s

-- The second loop: what it writes, from `p = d` on.
pub encode_bytes : Bytes → Bytes
unfolding uvchr_to_utf8
encode_bytes [] = []
encode_bytes (b ∷ s) = uvchr_to_utf8 b ++ encode_bytes s

-- The buffer with its NUL, and `*lenp`.
pub bytes_to_utf8 : Bytes → Bytes × ℕ
unfolding utf8_size encode_bytes
bytes_to_utf8 s = (encode_bytes s ++ (0 ∷ []), utf8_size s)

-- The loop of `goperl_utf8_to_bytes`; `p` is the list, and `d` has received `out`.
pub to_bytes_loop : ℕ → Bytes → Bytes → Option (Option Bytes)
to_bytes_loop fuel [] out = some (some out)
to_bytes_loop zero (c ∷ s) out = none
to_bytes_loop (suc fuel) (c ∷ s) out = elim (utf8n_to_uvchr (c ∷ s) (length (c ∷ s)) allow_all) [
  | none ↦ some none
  | some (uv, rl) ↦
      if ltb 0xff uv
      then some none
      else to_bytes_loop fuel (drop rl (c ∷ s)) (out ++ (uv % 256 ∷ []))
]

-- `none` is the null pointer that is returned for a string that is no downgradable UTF-8. The
-- outer option is `none` if the fuel runs out.
pub utf8_to_bytes : Bytes → Option (Option Bytes)
unfolding to_bytes_loop
utf8_to_bytes s = to_bytes_loop (length s) s []

-- The width of a lead byte in `goperl_is_utf8_string`; 0 is its `else return 0`.
pub lead_width : ℕ → ℕ
lead_width c =
    if ltb c 0x80
    then 1
    else if bit_and c 0xe0 == 0xc0
    then 2
    else if bit_and c 0xf0 == 0xe0
    then 3
    else if bit_and c 0xf8 == 0xf0
    then 4
    else 0

-- The inner loop `for (k = 1; k < n; k++)`, `left` rounds to go.
pub tail_ok : ℕ → Bytes → Bool
tail_ok zero s = true
tail_ok (suc left) [] = false
tail_ok (suc left) (b ∷ s) = (bit_and b 0xc0 == 0x80) && tail_ok left s

pub string_loop : ℕ → Bytes → Option Bool
string_loop fuel [] = some true
string_loop zero (c ∷ s) = none
string_loop (suc fuel) (c ∷ s) =
    let n = lead_width c in
    let rest = string_loop fuel (drop n (c ∷ s)) in
    if n == 0
    then some false
    else if ltb (suc (length s)) n
    then some false
    else if not (tail_ok (n - 1) s)
    then some false
    else if n == 2 && ltb c 0xc2
    then some false
    else rest

pub is_utf8_string : Bytes → Option Bool
unfolding string_loop
is_utf8_string s = string_loop (length s) s

-- `goperl_utf8_cp`, with `p` the list up to `e`; `p` is never at `e`.
pub fold_tail : ℕ → Bytes → ℕ → ℕ
fold_tail zero s c = c
fold_tail (suc left) [] c = c
fold_tail (suc left) (b ∷ s) c = fold_tail left s (append_bits c b)

pub cp_width : ℕ → ℕ
cp_width c = if leb 0xf0 c then 4 else if leb 0xe0 c then 3 else if leb 0xc2 c then 2 else 1

pub utf8_cp : ℕ → Bytes → ℕ
utf8_cp c s =
    let n = cp_width c in
    if ltb c 0x80
    then c
    else if n == 1 || ltb (suc (length s)) n
    then c
    else fold_tail (n - 1) s (bit_and c (0x7f / 2 ^ n))
