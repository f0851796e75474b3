-- ===== src/Flush/Funnel.antt =====
-- `goperl_flush` writes exactly what is pending, and `goperl_do_op` runs behind it.
use go_perl.Prelude.{
  ℕ, ◌+◌, ◌%◌, ◌^◌, Bool, true, false, not, ◌&&◌, List, [], ◌∷◌, ◌++◌, ◌==◌, if◌then◌else◌, ◌≡◌,
  refl, ap, ◌∙◌, sym, arith, ==_refl,
}
use mathlib.Core.List.{append_assoc, append-nil}
use go_perl.Flush.{pl_diehook, pl_warnhook}
use go_perl.Flush.Spec.{when}
use go_perl.Bridge.Op.{plvar_set}
use go_perl.Bridge.{Call, emit, AvMirror, PpSlot}
use go_perl.Bridge.{xs_op, Log, Guest, PpTable, World}
use go_perl.Bridge.Op.{GuestOp}
use go_perl.Flush.Loop.{each_clean, each_calls, each-eq, each_calls-clean, each_clean-clean}
use go_perl.Flush.{
  svcur_writeback, hints_flush, hooks_flush, plshadow_step, plshadow_flush, ivmirror_step,
  ivmirror_flush, avmirror_step, avmirror_flush, ppaddr_step, ppaddr_sync, flush, gen_bump, do_op,
}
use go_perl.Flush.Spec.{
  emit_if, plshadow_clean, plshadow_calls, ivmirror_clean, ivmirror_calls, slot_clean, slot_calls,
  avmirror_clean, avmirror_calls, ppaddr_clean, ppaddr_calls, svcur_calls, hints_calls, hooks_calls,
  pp_calls, pp_clean, pending, settled, plshadow_step-eq, ivmirror_step-eq, avmirror_step-eq,
  ppaddr_step-eq,
}

svcur_writeback_lem :
    (w : World)
    → svcur_writeback w
      ≡ record w { shared = record (w.shared) { svcur_sv = 0 }; log = w.log ++ svcur_calls w }
unfolding svcur_writeback
svcur_writeback_lem w = ground (arith, append-nil (w.log))

hints_flush_lem :
    (w : World)
    → hints_flush w ≡ record w {
      shared = record (w.shared) {
        hints_base = if w.shared.hints_live then w.shared.hints_slot else w.shared.hints_base;
      };
      log = w.log ++ hints_calls w;
    }
unfolding hints_flush
hints_flush_lem w = ground (arith, append-nil (w.log))

emit_two :
    (b d : Bool) (c e : Call) (log : Log)
    → (if d then emit e (if b then emit c log else log) else (if b then emit c log else log))
      ≡ log ++ (when b c ++ when d e)
emit_two b d c e log =
    emit_if d e (if b then emit c log else log)
    ∙ ap (λ l. l ++ when d e) (emit_if b c log)
    ∙ append_assoc log (when b c) (when d e)

hooks_flush_lem :
    (w : World)
    → hooks_flush w ≡ record w {
      frame = record (w.frame) { die_dirty = false; warn_dirty = false };
      log = w.log ++ hooks_calls w;
    }
unfolding hooks_flush
hooks_flush_lem w =
    ap
      (λ l. record w {
        frame = record (w.frame) { die_dirty = false; warn_dirty = false };
        log = l;
      })
      (emit_two w.frame.die_dirty w.frame.warn_dirty (xs_op plvar_set pl_diehook w.frame.die_val [])
        (xs_op plvar_set pl_warnhook w.frame.warn_val []) w.log)

plshadow_flush_lem :
    (w : World)
    → plshadow_flush w ≡ record w {
      shared = record (w.shared) { plshadow = each_clean plshadow_clean 0 w.shared.plshadow };
      log = w.log ++ each_calls plshadow_calls 0 w.shared.plshadow;
    }
unfolding plshadow_flush
plshadow_flush_lem w =
    rw (
      each-eq plshadow_step plshadow_clean plshadow_calls plshadow_step-eq 0 w.shared.plshadow
        w.log)

ivmirror_flush_lem :
    (w : World)
    → ivmirror_flush w ≡ record w {
      shared = record (w.shared) { ivmirrors = each_clean ivmirror_clean 0 w.shared.ivmirrors };
      log = w.log ++ each_calls ivmirror_calls 0 w.shared.ivmirrors;
    }
unfolding ivmirror_flush
ivmirror_flush_lem w = rw (
    each-eq ivmirror_step ivmirror_clean ivmirror_calls ivmirror_step-eq 0 w.shared.ivmirrors w.log)

avmirror_flush_lem :
    (w : World)
    → avmirror_flush w ≡ record w {
      shared = record (w.shared) { avmirrors = each_clean avmirror_clean 0 w.shared.avmirrors };
      log = w.log ++ each_calls avmirror_calls 0 w.shared.avmirrors;
    }
unfolding avmirror_flush
avmirror_flush_lem w = rw (
    each-eq avmirror_step avmirror_clean avmirror_calls avmirror_step-eq 0 w.shared.avmirrors w.log)

pp_choice :
    (b : Bool) (w : World) (slots : List PpSlot) (calls : Log)
    → (if b then record w { pp = record (w.pp) { slots = slots }; log = w.log ++ calls } else w)
      ≡ record w {
        pp = if b then record (w.pp) { slots = slots } else w.pp;
        log = w.log ++ (if b then calls else []);
      }
pp_choice true w slots calls = refl
pp_choice false w slots calls = ap (λ l. record w { log = l }) (sym (append-nil w.log))

ppaddr_sync_lem :
    (w : World) → ppaddr_sync w ≡ record w { pp = pp_clean w.pp; log = w.log ++ pp_calls w }
unfolding ppaddr_sync
ppaddr_sync_lem w =
    rw (each-eq ppaddr_step ppaddr_clean ppaddr_calls ppaddr_step-eq 0 w.pp.slots w.log) (
      pp_choice w.pp.inited w (each_clean ppaddr_clean 0 w.pp.slots)
        (each_calls ppaddr_calls 0 w.pp.slots))

assoc_7 :
    (l a b c d e f g : Log)
    → (((((((l ++ a) ++ b) ++ c) ++ d) ++ e) ++ f) ++ g)
      ≡ l ++ (a ++ (b ++ (c ++ (d ++ (e ++ (f ++ g))))))
assoc_7 l a b c d e f g = simp append_assoc

-- The flush makes exactly the calls that are pending, in their order, and leaves the host state
-- with nothing pending and the values that the module wrote as they are.
pub flush_lem : (w : World) → flush w ≡ record (settled w) { log = w.log ++ pending w }
unfolding flush pending settled
flush_lem w =
    rw
      (
        svcur_writeback_lem, hints_flush_lem, hooks_flush_lem, plshadow_flush_lem,
        ivmirror_flush_lem, avmirror_flush_lem, ppaddr_sync_lem,
      )
      (ap (λ l. record (settled w) { log = l })
        (assoc_7 w.log (svcur_calls w) (hints_calls w) (hooks_calls w)
          (each_calls plshadow_calls 0 w.shared.plshadow)
          (each_calls ivmirror_calls 0 w.shared.ivmirrors)
          (each_calls avmirror_calls 0 w.shared.avmirrors) (pp_calls w)))

hints_settled :
    (live : Bool) (slot base : ℕ) → (live && not (slot == (if live then slot else base))) ≡ false
hints_settled live slot base = ground arith

avmirror_settled : (i : ℕ) (m : AvMirror) → avmirror_calls i (avmirror_clean i m) ≡ []
avmirror_settled i m =
    each_calls-clean slot_clean (slot_calls m.avtok) (λ j s. rw (==_refl s.buf)) 0 m.slots

pp_settled :
    (b : Bool) (slots : List PpSlot)
    → let t = pp_clean (record { inited = b; slots = slots }) in
      (if t.inited then each_calls ppaddr_calls 0 t.slots else []) ≡ []
pp_settled true slots = each_calls-clean ppaddr_clean ppaddr_calls (λ i s. ground arith) 0 slots
pp_settled false slots = refl

-- Nothing is pending in a settled state, whatever the log and the generation.
pending-settled :
    (w : World) (log : Log) (gen : ℕ)
    → pending (record (settled w) { shared = record ((settled w).shared) { gen = gen }; log = log })
      ≡ []
unfolding pending settled
pending-settled w log gen =
    rw
      (
        hints_settled w.shared.hints_live w.shared.hints_slot w.shared.hints_base,
        each_calls-clean plshadow_clean plshadow_calls (λ i x. refl) 0 w.shared.plshadow,
        each_calls-clean ivmirror_clean ivmirror_calls (λ i x. rw (==_refl x.val)) 0
            w.shared.ivmirrors,
        each_calls-clean avmirror_clean avmirror_calls avmirror_settled 0 w.shared.avmirrors,
      )
      (pp_settled w.pp.inited w.pp.slots)

-- After a flush nothing is pending.
pub pending-flush : (w : World) → pending (flush w) ≡ []
unfolding settled
pending-flush w = rw (flush_lem w) (pending-settled w (w.log ++ pending w) w.shared.gen)

hints_again :
    (live : Bool) (slot base : ℕ)
    → (if live then slot else (if live then slot else base)) ≡ (if live then slot else base)
hints_again live slot base = ground arith

pp_again :
    (b : Bool) (slots : List PpSlot)
    → let t : PpTable = record { inited = b; slots = slots } in pp_clean (pp_clean t) ≡ pp_clean t
pp_again true slots =
    ap (λ (s : List PpSlot). record { inited = true; slots = s })
      (each_clean-clean ppaddr_clean (λ i s. refl) 0 slots)
pp_again false slots = refl

settled-settled :
    (w : World) (log : Log)
    → settled (record (settled w) { log = log }) ≡ record (settled w) { log = log }
unfolding settled
settled-settled w log = rw (
  hints_again w.shared.hints_live w.shared.hints_slot w.shared.hints_base,
  each_clean-clean plshadow_clean (λ i x. refl) 0 w.shared.plshadow,
  each_clean-clean ivmirror_clean (λ i x. refl) 0 w.shared.ivmirrors,
  each_clean-clean avmirror_clean
      (λ i m.
        ap (λ s. record m { slots = s }) (each_clean-clean slot_clean (λ j x. refl) 0 m.slots))
      0 w.shared.avmirrors,
  pp_again w.pp.inited w.pp.slots,
)

-- A second flush right behind the first changes nothing and calls nothing.
pub flush-flush : (w : World) → flush (flush w) ≡ flush w
unfolding settled
flush-flush w =
    flush_lem (flush w)
    ∙ ap (λ p. record (settled (flush w)) { log = (flush w).log ++ p }) (pending-flush w)
    ∙ ap (λ l. record (settled (flush w)) { log = l }) (append-nil (flush w).log)
    ∙ rw (flush_lem w) (settled-settled w (w.log ++ pending w))

-- An operation runs with nothing pending: the guest has seen the pending writes, in order, and
-- then the operation itself, whose result is the guest's answer at that point. Of the host state
-- the flush settles its parts, and the generation counter moves by one, modulo 2^64; nothing is
-- pending afterwards.
pub do_op_lem :
    (g : Guest) (op : GuestOp) (a b : ℕ) (s : List ℕ) (w : World)
    → let before = w.log ++ pending w in
      (do_op g op a b s w ≡ (
        g.answer before (xs_op op a b s),
        record (settled w) {
          shared = record ((settled w).shared) { gen = (w.shared.gen + 1) % 2 ^ 64 };
          log = before ++ (xs_op op a b s ∷ []);
        },
      ))
      × (pending (do_op g op a b s w).1 ≡ [])
unfolding do_op gen_bump settled
do_op_lem g op a b s w = rw (flush_lem w) (
  refl,
  pending-settled w ((w.log ++ pending w) ++ (xs_op op a b s ∷ [])) ((w.shared.gen + 1) % 2 ^ 64),
)
