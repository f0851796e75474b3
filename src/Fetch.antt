-- ===== src/Fetch.antt =====
-- The operations of xs/sdk/include/perl.h that return an `SV **`: `goperl_av_fetch`,
-- `goperl_hv_fetch` and `goperl_hv_store`, whose results stand in the frame's ring of 16 slots, and
-- their kin `goperl_hv_common` and `goperl_immortal`.
pub mod Kept
pub mod Examples
use go_perl.Prelude.{
  ℕ, zero, suc, ◌+◌, ◌-◌, ◌*◌, ◌%◌, ◌^◌, Bool, true, false, ◌&&◌, not, Option, none, some, List, [],
  ◌∷◌, ltb, ◌==◌, if◌then◌else◌, get_or, set, length, take, bit_and,
}
use go_perl.Bridge.{Guest, World, Log, sv_pv, emit}
use go_perl.Bridge.Op.{
  GuestOp, av_read, av_fetch, hv_fetch_klen, hv_store_klen, new_sv, sv_mortal, plvar_get,
}
use go_perl.Flush.{do_op}

-- `GOPERL_XS_TMPS`
abbrev pub xs_tmps : ℕ
xs_tmps = 16

-- The part of `goperl_frame_t` with the slots; `tmpidx` is the pattern of an `int32_t`.
pub record Slots : Type 0 where
  pub tmp : List ℕ
  pub tmpidx : ℕ
  pub imm : List ℕ
  pub world : World

-- A null pointer, a pointer to a slot of `tmp`, or one outside of it.
pub data Fetched : Type 0 where
  null : Slots → Fetched
  slot : ℕ → Slots → Fetched
  outside : Fetched

-- `goperl_tmp_slot`: the remainder of a negative cursor is negative.
pub tmp_slot : ℕ → Slots → Fetched
tmp_slot tok f =
    let k = f.tmpidx % xs_tmps in
    if ltb f.tmpidx (2 ^ 31)
    then slot k (record f { tmp = set f.tmp k tok; tmpidx = (f.tmpidx + 1) % 2 ^ 32 })
    else outside

-- `goperl_av_fetch`; the index is a 64-bit pattern.
pub av_fetch_slot : Guest → ℕ → ℕ → ℕ → Slots → Fetched
unfolding tmp_slot
av_fetch_slot g av i lval f =
    let (tok, w) = do_op g (if lval == 0 then av_fetch else av_read) av i [] f.world in
    let f' = record f { world = w } in if tok == 0 then null f' else tmp_slot tok f'

-- `klen < 0` and `klen = -klen` for the pattern of an I32.
abbrev pub is_negative : ℕ → Bool
is_negative klen = not (ltb klen (2 ^ 31))

pub key_length : ℕ → ℕ
key_length klen = if is_negative klen then (2 ^ 32 - klen) % 2 ^ 32 else klen

-- The second operand, `utf8 << 32 | low`.
abbrev pub key_operand : ℕ → ℕ → ℕ
key_operand klen low = (if is_negative klen then 1 else 0) * 2 ^ 32 + low

-- The slot with an undef of its own, which an lvalue fetch of a dying hash gives.
pub undef_slot : Guest → Slots → Fetched
unfolding tmp_slot
undef_slot g f =
    let (u, w) = do_op g new_sv 0 0 [] f.world in
    tmp_slot u (record f { world = (do_op g sv_mortal u 0 [] w).1 })

-- `goperl_hv_fetch`, with the bytes from `key` on.
pub hv_fetch : Guest → ℕ → List ℕ → ℕ → ℕ → Slots → Fetched
unfolding undef_slot tmp_slot key_length
hv_fetch g hv key klen lval f =
    let (tok, w) =
      do_op g hv_fetch_klen hv (key_operand klen (if lval == 0 then 0 else 1))
        (take (key_length klen) key) f.world in
    let f' = record f { world = w } in
    if tok == 0 && not (lval == 0)
    then undef_slot g f'
    else if tok == 0
    then null f'
    else tmp_slot tok f'

-- `goperl_hv_store`
pub hv_store : Guest → ℕ → List ℕ → ℕ → ℕ → Slots → Fetched
unfolding tmp_slot key_length
hv_store g hv key klen sv f =
    let (tok, w) =
      do_op g hv_store_klen hv (key_operand klen (sv % 2 ^ 32)) (take (key_length klen) key)
        f.world in
    let f' = record f { world = w } in if tok == 0 then null f' else tmp_slot tok f'

-- The operations above, as a module calls them.
pub data Fetch : Type 0 where
  of_array : ℕ → ℕ → ℕ → Fetch
  of_hash : ℕ → List ℕ → ℕ → ℕ → Fetch
  into_hash : ℕ → List ℕ → ℕ → ℕ → Fetch

pub fetch : Guest → Fetch → Slots → Fetched
unfolding av_fetch_slot hv_fetch hv_store
fetch g (of_array av i lval) f = av_fetch_slot g av i lval f
fetch g (of_hash hv key klen lval) f = hv_fetch g hv key klen lval f
fetch g (into_hash hv key klen sv) f = hv_store g hv key klen sv f

-- A sequence of them; `none` where one wrote outside of the slots.
pub fetches : Guest → List Fetch → Slots → Option Slots
unfolding fetch
fetches g [] f = some f
fetches g (op ∷ ops) f = elim (fetch g op f) [
  | null f' ↦ fetches g ops f'
  | slot k f' ↦ fetches g ops f'
  | outside ↦ none
]

-- `GOPERL_PL_SV_UNDEF`, the first of the three immortals.
abbrev pub pl_sv_undef : ℕ
pl_sv_undef = 3

-- `goperl_immortal`: the token in the slot `imm[ix]`, which is asked for once.
pub immortal : Guest → ℕ → Slots → ℕ × Slots
immortal g ix f =
    let (tok, w) = do_op g plvar_get (pl_sv_undef + ix) 0 [] f.world in
    let kept = get_or f.imm ix 0 in
    if kept == 0 then (tok, record f { imm = set f.imm ix tok; world = w }) else (kept, f)

-- `HV_FETCH_ISSTORE`, `HV_FETCH_LVALUE`, `HVhek_UTF8`
abbrev pub hv_fetch_isstore : ℕ
hv_fetch_isstore = 4

abbrev pub hv_fetch_lvalue : ℕ
hv_fetch_lvalue = 16

abbrev pub hvhek_utf8 : ℕ
hvhek_utf8 = 1

-- `goperl_hv_common` behind the choice of the key: the SV, and the world.
pub hv_common_key : Guest → ℕ → List ℕ → ℕ → ℕ → ℕ → World → ℕ × World
hv_common_key g hv key kflags action val w =
    let utf8 = if bit_and kflags hvhek_utf8 == 0 then 0 else 1 in
    let lvalue = if bit_and action hv_fetch_lvalue == 0 then 0 else 1 in
    if not (bit_and action hv_fetch_isstore == 0)
    then do_op g hv_store_klen hv (utf8 * 2 ^ 32 + val % 2 ^ 32) key w
    else do_op g hv_fetch_klen hv (utf8 * 2 ^ 32 + lvalue) key w

-- `goperl_hv_common`: a key given as bytes goes before the one of an SV, whose bytes `sv_text` is
-- the answer to `sv_pv`.
pub hv_common : Guest → (Log → ℕ → List ℕ) → ℕ → ℕ → Option (List ℕ) → ℕ → ℕ → ℕ → World → ℕ × World
unfolding hv_common_key
hv_common g sv_text hv keysv (some key) kflags action val w =
    hv_common_key g hv key kflags action val w
hv_common g sv_text hv keysv none kflags action val w =
    let read = record w { log = emit (sv_pv keysv) w.log } in
    if keysv == 0
    then hv_common_key g hv [] kflags action val w
    else hv_common_key g hv (sv_text w.log keysv) kflags action val read
