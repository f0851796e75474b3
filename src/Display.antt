-- ===== src/Display.antt =====
-- `pv_uni_display` (xs/sdk/include/perl.h): bytes escaped for an error message, in a buffer of 1024
-- bytes.
pub mod Bounds
pub mod Examples
use go_perl.Prelude.{
  ℕ, zero, suc, ◌+◌, ◌-◌, ◌/◌, ◌%◌, ◌^◌, Bool, true, false, ◌&&◌, ◌||◌, List, [], ◌∷◌, ◌++◌, ltb,
  leb, ◌==◌, if◌then◌else◌, length,
}
use go_perl.Bridge.{Guest, World, sv_pv, emit}
use go_perl.Bridge.Op.{sv_setpvn}
use go_perl.Flush.{flush, do_op}

-- A digit of `%02x`.
abbrev pub hex_digit : ℕ → ℕ
hex_digit n = if ltb n 10 then b'0' + n else b'a' + (n - 10)

-- What the loop appends for a byte; `snprintf` has nine bytes at least, and writes six.
pub escape : ℕ → List ℕ
escape c =
    if c == b'\\' || (c == b'"')
    then b'\\' ∷ c ∷ []
    else if leb 0x20 c && ltb c 0x7f
    then c ∷ []
    else b'\\' ∷ b'x' ∷ b'{' ∷ hex_digit (c / 16) ∷ hex_digit (c % 16) ∷ b'}' ∷ []

-- `sizeof out - 8`
abbrev pub out_limit : ℕ
out_limit = 1016

abbrev pub dots : List ℕ
dots = b'.' ∷ b'.' ∷ b'.' ∷ []

-- The loop over the bytes that are left, with what stands in `out` before `o`.
pub display_from : ℕ → ℕ → List ℕ → List ℕ → List ℕ
unfolding escape
display_from pvlim shown [] out = out
display_from pvlim shown (c ∷ s) out =
    let rest = display_from pvlim (suc shown) s (out ++ escape c) in
    if leb out_limit (length out) then out else if leb pvlim shown then out ++ dots else rest

pub display : ℕ → List ℕ → List ℕ
unfolding display_from
display pvlim s = display_from pvlim 0 s []

-- `goperl_pv_uni_display`: the text goes to `dsv`, and the pointer returned is that of `sv_pv`.
pub pv_uni_display : Guest → ℕ → List ℕ → ℕ → World → ℕ × World
unfolding display
pv_uni_display g dsv spv pvlim w =
    let out = display pvlim spv in
    let flushed = flush (do_op g sv_setpvn dsv (length out) out w).1 in
    let call = sv_pv dsv in
    (g.answer flushed.log call, record flushed { log = emit call flushed.log })
