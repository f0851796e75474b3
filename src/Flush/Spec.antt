-- ===== src/Flush/Spec.antt =====
-- What the flush owes the guest, and the funnel in terms of it.
use go_perl.Prelude.{
  ℕ, Bool, true, false, not, ◌&&◌, none, some, [], ◌∷◌, ◌++◌, ◌==◌, if◌then◌else◌, ◌≡◌, refl, sym,
  arith,
}
use mathlib.Core.List.{append-nil}
use go_perl.Bridge.{
  Call, xs_op, pp_hook_set, Log, PlShadow, IvMirror, Slot, AvMirror, PpSlot, PpTable, World, emit,
}
use go_perl.Bridge.Op.{sv_cur_set, plvar_set, sv_setiv, av_store_raw}
use go_perl.Flush.Loop.{each_clean, each_calls, each-eq}
use go_perl.Flush.{
  pl_diehook, pl_warnhook, pl_hints, pack32, plshadow_step, ivmirror_step, slot_step, avmirror_step,
  ppaddr_step,
}

-- The call, if the test holds.
abbrev pub when : Bool → Call → Log
when b c = if b then c ∷ [] else []

-- One entry after the flush, and the call that it owes.
abbrev pub plshadow_clean : ℕ → PlShadow → PlShadow
plshadow_clean i s = record s { dirty = false }

abbrev pub plshadow_calls : ℕ → PlShadow → Log
plshadow_calls i s = when s.dirty (xs_op plvar_set i s.val [])

abbrev pub ivmirror_clean : ℕ → IvMirror → IvMirror
ivmirror_clean i m = record m { shadow = m.val }

abbrev pub ivmirror_calls : ℕ → IvMirror → Log
ivmirror_calls i m = when (not (m.val == m.shadow)) (xs_op sv_setiv m.svtok m.val [])

abbrev pub slot_clean : ℕ → Slot → Slot
slot_clean i s = record s { shadow = s.buf }

abbrev pub slot_calls : ℕ → ℕ → Slot → Log
slot_calls avtok i s = when (not (s.buf == s.shadow)) (xs_op av_store_raw avtok (pack32 i s.buf) [])

abbrev pub avmirror_clean : ℕ → AvMirror → AvMirror
avmirror_clean m mir = record mir { slots = each_clean slot_clean 0 mir.slots }

abbrev pub avmirror_calls : ℕ → AvMirror → Log
avmirror_calls m mir = each_calls (slot_calls mir.avtok) 0 mir.slots

abbrev pub ppaddr_clean : ℕ → PpSlot → PpSlot
ppaddr_clean i s = record s { installed = not (s.addr == s.base) }

abbrev pub ppaddr_calls : ℕ → PpSlot → Log
ppaddr_calls i s =
    if s.addr == s.base
    then when s.installed (pp_hook_set i none)
    else when (not s.installed) (pp_hook_set i (some s.addr))

-- The calls that each part owes.
abbrev pub svcur_calls : World → Log
svcur_calls w =
    when (not (w.shared.svcur_sv == 0) && not (w.shared.svcur_val == w.shared.svcur_orig))
      (xs_op sv_cur_set w.shared.svcur_sv w.shared.svcur_val [])

abbrev pub hints_calls : World → Log
hints_calls w =
    when (w.shared.hints_live && not (w.shared.hints_slot == w.shared.hints_base))
      (xs_op plvar_set pl_hints w.shared.hints_slot [])

abbrev pub hooks_calls : World → Log
hooks_calls w =
    when w.frame.die_dirty (xs_op plvar_set pl_diehook w.frame.die_val [])
    ++ when w.frame.warn_dirty (xs_op plvar_set pl_warnhook w.frame.warn_val [])

abbrev pub pp_calls : World → Log
pp_calls w = if w.pp.inited then each_calls ppaddr_calls 0 w.pp.slots else []

abbrev pub pp_clean : PpTable → PpTable
pp_clean t = if t.inited then record t { slots = each_clean ppaddr_clean 0 t.slots } else t

-- All that the host owes the guest, in the order in which it is written.
unfoldable pub pending : World → Log
pending w =
    svcur_calls w
    ++ (hints_calls w
        ++ (hooks_calls w
            ++ (each_calls plshadow_calls 0 w.shared.plshadow
                ++ (each_calls ivmirror_calls 0 w.shared.ivmirrors
                    ++ (each_calls avmirror_calls 0 w.shared.avmirrors ++ pp_calls w)))))

-- The host state with nothing pending; the values that the module wrote stay.
unfoldable pub settled : World → World
settled w = record w {
  shared = record (w.shared) {
    svcur_sv = 0;
    hints_base = if w.shared.hints_live then w.shared.hints_slot else w.shared.hints_base;
    plshadow = each_clean plshadow_clean 0 w.shared.plshadow;
    ivmirrors = each_clean ivmirror_clean 0 w.shared.ivmirrors;
    avmirrors = each_clean avmirror_clean 0 w.shared.avmirrors;
  };
  frame = record (w.frame) { die_dirty = false; warn_dirty = false };
  pp = pp_clean w.pp;
}

pub emit_if : (b : Bool) (c : Call) (log : Log) → (if b then emit c log else log) ≡ log ++ when b c
emit_if true c log = refl
emit_if false c log = sym (append-nil log)

pub plshadow_step-eq :
    (i : ℕ) (s : PlShadow) (log : Log)
    → plshadow_step i s log ≡ (plshadow_clean i s, log ++ plshadow_calls i s)
unfolding plshadow_step
plshadow_step-eq i s log = ground (arith, append-nil log)

pub ivmirror_step-eq :
    (i : ℕ) (m : IvMirror) (log : Log)
    → ivmirror_step i m log ≡ (ivmirror_clean i m, log ++ ivmirror_calls i m)
unfolding ivmirror_step
ivmirror_step-eq i m log = ground (arith, append-nil log)

slot_step-eq :
    (avtok i : ℕ) (s : Slot) (log : Log)
    → slot_step avtok i s log ≡ (slot_clean i s, log ++ slot_calls avtok i s)
unfolding slot_step
slot_step-eq avtok i s log = ground (arith, append-nil log)

pub ppaddr_step-eq :
    (i : ℕ) (s : PpSlot) (log : Log)
    → ppaddr_step i s log ≡ (ppaddr_clean i s, log ++ ppaddr_calls i s)
unfolding ppaddr_step
ppaddr_step-eq i s log = ground (arith, append-nil log)

pub avmirror_step-eq :
    (m : ℕ) (mir : AvMirror) (log : Log)
    → avmirror_step m mir log ≡ (avmirror_clean m mir, log ++ avmirror_calls m mir)
unfolding avmirror_step
avmirror_step-eq m mir log = rw (
    each-eq (slot_step mir.avtok) slot_clean (slot_calls mir.avtok) (slot_step-eq mir.avtok) 0
      mir.slots log)
