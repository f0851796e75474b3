-- ===== src/Text.antt =====
-- The host-side text helpers of xs/sdk/include/perl.h: `goperl_grok_number`, `ninstr`, `rninstr`
-- and `my_strlcat`. A range of memory is the list of its bytes, a pointer into it an index.
pub mod Number
pub mod Search
pub mod Concat
pub mod Examples
use go_perl.Prelude.{
  ℕ, zero, suc, ◌+◌, ◌-◌, ◌*◌, ◌%◌, ◌^◌, Bool, true, false, ◌&&◌, Option, none, some, List, [], ◌∷◌,
  ltb, leb, ◌==◌, if◌then◌else◌, length, drop, set,
}

-- The result of `grok_number`: IS_NUMBER_IN_UV with `*valuep`, IS_NUMBER_GREATER_THAN_UV_MAX, or 0.
pub data Grok : Type 0 where
  in_uv : ℕ → Grok
  greater_than_uv_max not_a_number : Grok

pub is_digit : ℕ → Bool
is_digit c = leb b'0' c && leb c b'9'

-- The loop at `pv[i]`, with the bytes from `i` on; `seen` is `i != 0`.
pub grok_loop : List ℕ → ℕ → Bool → Grok
grok_loop [] v seen = if seen then in_uv v else not_a_number
grok_loop (c ∷ s) v seen =
    let v' = (v * 10 + (c - b'0')) % 2 ^ 64 in
    let rest = grok_loop s v' true in
    if is_digit c then if ltb 0xffffffff v' then greater_than_uv_max else rest else not_a_number

pub grok_number : List ℕ → Grok
unfolding grok_loop is_digit
grok_number s = if length s == 0 then not_a_number else grok_loop s 0 false

-- `memcmp(big, little, littlelen) == 0`, where `big` has that many bytes.
pub mem_eq : List ℕ → List ℕ → Bool
mem_eq [] big = true
mem_eq (l ∷ little) [] = false
mem_eq (l ∷ little) (b ∷ big) = (b == l) && mem_eq little big

-- The loop `for (; big + littlelen <= bigend; big++)`; `i` counts the rounds made.
pub ninstr_loop : List ℕ → List ℕ → ℕ → Option ℕ
ninstr_loop [] little i = none
ninstr_loop (b ∷ big) little i =
    let rest = ninstr_loop big little (i + 1) in
    if ltb (suc (length big)) (length little)
    then none
    else if mem_eq little (b ∷ big)
    then some i
    else rest

-- The index of the result in `big`, `none` for a null pointer.
pub ninstr : List ℕ → List ℕ → Option ℕ
unfolding ninstr_loop mem_eq
ninstr big little = if length little == 0 then some 0 else ninstr_loop big little 0

-- The loop `for (s = bigend - littlelen; s >= big; s--)` with `s` at `big + left - 1`.
pub rninstr_loop : List ℕ → List ℕ → ℕ → Option ℕ
rninstr_loop big little zero = none
rninstr_loop big little (suc left) =
    let rest = rninstr_loop big little left in
    if mem_eq little (drop left big) then some left else rest

pub rninstr : List ℕ → List ℕ → Option ℕ
unfolding rninstr_loop mem_eq
rninstr big little =
    if length little == 0
    then some (length big)
    else rninstr_loop big little (length big + 1 - length little)

-- `strlen`: the bytes before the first NUL.
abbrev pub strlen : List ℕ → ℕ
strlen [] = 0
strlen (c ∷ s) = if c == 0 then 0 else suc (strlen s)

-- `memcpy(dst + at, src, n)`, byte by byte, from the first `n` bytes of `src`.
pub memcpy : List ℕ → ℕ → List ℕ → ℕ → List ℕ
memcpy buf at src zero = buf
memcpy buf at [] (suc n) = buf
memcpy buf at (c ∷ src) (suc n) = memcpy (set buf at c) (at + 1) src n

pub copy_length : ℕ → ℕ → ℕ → ℕ
copy_length size used length =
    let copy = size - used - 1 in if ltb length copy then length else copy

-- The buffer at `dst` and the result.
pub my_strlcat : List ℕ → List ℕ → ℕ → List ℕ × ℕ
unfolding memcpy copy_length
my_strlcat buf src size =
    let used = strlen buf in
    let length = strlen src in
    let copy = copy_length size used length in
    if ltb 0 size && ltb used (size - 1)
    then (set (memcpy buf used src copy) (used + copy) 0, used + length)
    else (buf, used + length)
