-- ===== src/Flush.antt =====
-- The guest-op funnel of xs/sdk/include/perl.h: `goperl_flush` writes the pending host state to the
-- guest, and `goperl_do_op` does so before every operation.
pub mod Loop
pub mod Examples
pub mod Funnel
pub mod Spec
use go_perl.Prelude.{
  ℕ, ◌+◌, ◌*◌, ◌%◌, ◌^◌, Bool, true, false, not, ◌&&◌, ◌||◌, Option, none, some, List, [], ◌∷◌,
  ◌++◌, ◌==◌, if◌then◌else◌,
}
use go_perl.Bridge.{
  Call, xs_op, pp_hook_set, Log, Guest, PlShadow, IvMirror, Slot, AvMirror, PpSlot, Shared, Frame,
  PpTable, World, emit,
}
use go_perl.Bridge.Op.{sv_cur_set, plvar_set, sv_setiv, av_store_raw, GuestOp}
use go_perl.Flush.Loop.{each}

abbrev pub pl_diehook : ℕ
pl_diehook = 1

abbrev pub pl_warnhook : ℕ
pl_warnhook = 2

abbrev pub pl_hints : ℕ
pl_hints = 24

-- `goperl_svcur_writeback`
pub svcur_writeback : World → World
svcur_writeback w =
    let s = w.shared in
    let cleared = record s { svcur_sv = 0 } in
    if not (s.svcur_sv == 0) && not (s.svcur_val == s.svcur_orig)
    then record w {
      shared = cleared;
      log = emit (xs_op sv_cur_set s.svcur_sv s.svcur_val []) w.log;
    }
    else record w { shared = cleared }

-- The second step of `goperl_flush`: a changed PL_hints.
pub hints_flush : World → World
hints_flush w =
    let s = w.shared in
    if s.hints_live && not (s.hints_slot == s.hints_base)
    then record w {
      shared = record s { hints_base = s.hints_slot };
      log = emit (xs_op plvar_set pl_hints s.hints_slot []) w.log;
    }
    else w

-- The third: the pending hook assignments.
pub hooks_flush : World → World
hooks_flush w =
    let f = w.frame in
    let die_log =
      if f.die_dirty then emit (xs_op plvar_set pl_diehook f.die_val []) w.log else w.log in
    let warn_log =
      if f.warn_dirty then emit (xs_op plvar_set pl_warnhook f.warn_val []) die_log else die_log in
    record w { frame = record f { die_dirty = false; warn_dirty = false }; log = warn_log }

-- The body of the loop of `goperl_plshadow_flush`.
pub plshadow_step : ℕ → PlShadow → Log → PlShadow × Log
plshadow_step i s log =
    if s.dirty
    then (record s { dirty = false }, emit (xs_op plvar_set i s.val []) log)
    else (s, log)

pub plshadow_flush : World → World
plshadow_flush w =
    let (slots, log) = each plshadow_step 0 w.shared.plshadow w.log in
    record w { shared = record (w.shared) { plshadow = slots }; log = log }

-- The body of the loop of `goperl_ivmirror_flush`.
pub ivmirror_step : ℕ → IvMirror → Log → IvMirror × Log
ivmirror_step i m log =
    if m.val == m.shadow
    then (m, log)
    else (record m { shadow = m.val }, emit (xs_op sv_setiv m.svtok m.val []) log)

pub ivmirror_flush : World → World
ivmirror_flush w =
    let (mirrors, log) = each ivmirror_step 0 w.shared.ivmirrors w.log in
    record w { shared = record (w.shared) { ivmirrors = mirrors }; log = log }

-- `((uint64_t)(uint32_t)i << 32) | (uint32_t)v`: the halves do not overlap.
abbrev pub pack32 : ℕ → ℕ → ℕ
pack32 i v = i % 2 ^ 32 * 2 ^ 32 + v % 2 ^ 32

-- The body of the inner loop of `goperl_avmirror_flush`, for the mirror of `avtok`.
pub slot_step : ℕ → ℕ → Slot → Log → Slot × Log
slot_step avtok i s log =
    if s.buf == s.shadow
    then (s, log)
    else (record s { shadow = s.buf }, emit (xs_op av_store_raw avtok (pack32 i s.buf) []) log)

pub avmirror_step : ℕ → AvMirror → Log → AvMirror × Log
avmirror_step m mir log =
    let (slots, log') = each (slot_step mir.avtok) 0 mir.slots log in
    (record mir { slots = slots }, log')

pub avmirror_flush : World → World
avmirror_flush w =
    let (mirrors, log) = each avmirror_step 0 w.shared.avmirrors w.log in
    record w { shared = record (w.shared) { avmirrors = mirrors }; log = log }

-- The body of the loop of `goperl_ppaddr_sync`.
pub ppaddr_step : ℕ → PpSlot → Log → PpSlot × Log
ppaddr_step i s log =
    let hooked = not (s.addr == s.base) in
    if hooked && not s.installed
    then (record s { installed = true }, emit (pp_hook_set i (some s.addr)) log)
    else if not hooked && s.installed
    then (record s { installed = false }, emit (pp_hook_set i none) log)
    else (s, log)

pub ppaddr_sync : World → World
ppaddr_sync w =
    let (slots, log) = each ppaddr_step 0 w.pp.slots w.log in
    if w.pp.inited then record w { pp = record (w.pp) { slots = slots }; log = log } else w

-- `goperl_flush`
pub flush : World → World
flush w = ppaddr_sync (
    avmirror_flush
      (ivmirror_flush (plshadow_flush (hooks_flush (hints_flush (svcur_writeback w))))))

-- `goperl_gen_bump`
pub gen_bump : World → World
gen_bump w = record w { shared = record (w.shared) { gen = (w.shared.gen + 1) % 2 ^ 64 } }

-- `goperl_do_op`: the result and the world after it.
unfoldable pub do_op : Guest → GuestOp → ℕ → ℕ → List ℕ → World → ℕ × World
unfolding gen_bump
do_op g op a b s w =
    let flushed = flush w in
    let call = xs_op op a b s in
    (g.answer flushed.log call, gen_bump (record flushed { log = emit call flushed.log }))
