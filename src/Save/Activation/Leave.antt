-- ===== src/Save/Activation/Leave.antt =====
-- Leaving an activation against entering it.
use go_perl.Prelude.{
  ℕ, suc, ◌+◌, ◌-◌, ◌^◌, ◌<◌, ◌≡◌, refl, ap, sym, ◌∙◌, Bool, true, false, some, List, [], ◌∷◌, ltb,
  leb, if◌then◌else◌, length, arith, All,
}
use mathlib.Core.Path.{ap₂}
use go_perl.Bridge.{World}
use go_perl.Flush.{flush}
use go_perl.Save.{
  Memory, load_ptr, HostSave, Host, unwind, hostsave_unwind_to, restore, Action, run,
}
use go_perl.Save.Undo.{IsMemory, Guarded}
use go_perl.Save.Activation.{base_at, prev_at, Activation, xs_enter, at_rest, xs_leave, xs_croaked}
use go_perl.Save.Activation.Entry.{xs_enter-IsEntered, unwound, base_kept, prev_kept, Spares}

pub unwind-world :
    (base : ℕ) (h : Host) (w : World)
    → hostsave_unwind_to base (record h { world = w })
      ≡ record (hostsave_unwind_to base h) { world = w }
unfolding hostsave_unwind_to
unwind-world base h w = refl

world-unwind : (base : ℕ) (h : Host) → (hostsave_unwind_to base h).world ≡ h.world
unfolding hostsave_unwind_to
world-unwind base h = refl

pub leave_depth : (d : ℕ) → (if leb (d + 1) 1 then 0 else d + 1 - 1) ≡ d
leave_depth d = ground arith

-- The frame's fields that the leave reads, which the body does not write.
abbrev pub SparesFields : ℕ → List Action → Type 0
SparesFields frame actions =
    All (Spares (base_at frame)) actions
    × All (Spares (prev_at frame)) actions
    × All (Spares (prev_at frame + 1)) actions

-- The state after the leave of an activation that was entered in `a`.
abbrev pub left : Activation → Activation
left a =
    let k = record (a.host) { world = flush a.host.world } in
    record a { host = if leb (a.xs_depth + 1) 1 then at_rest k else k }

-- An XSUB that is entered, saves what it writes, spares the frame's fields and leaves: the memory,
-- the save stack, the frame made current and the depth are as before the entry, with the pending
-- writes flushed; the outermost leave also resets the mirrors and the scope counter.
pub xs_leave-xs_enter :
    (frame jb : ℕ) (a a1 : Activation) (actions : List Action) (h : Host)
    → IsMemory a.host.memory
    → a.cur_frame < 2 ^ 64
    → xs_enter frame jb a ≡ some a1
    → run actions a1.host ≡ some h
    → Guarded [] actions
    → SparesFields frame actions
    → xs_leave frame (record a1 { host = h }) ≡ left a
unfolding xs_leave
xs_leave-xs_enter frame jb a a1 actions h words small entered ran guard (sb, lo, hi) =
    let g = xs_enter-IsEntered frame jb a a1 entered in
    let back = unwound frame jb a a1 actions h words entered ran guard in
    let same : h.world ≡ a.host.world =
      sym (world-unwind (length a.host.saves) h) ∙ ap (λ k. k.world) back in
    let host : hostsave_unwind_to (h.memory (base_at frame)) (record h { world = flush h.world })
        ≡ record (a.host) { world = flush a.host.world } =
      ap (λ b. hostsave_unwind_to b (record h { world = flush h.world }))
        (base_kept frame jb a a1 actions h words entered ran guard sb)
      ∙ unwind-world (length a.host.saves) h (flush h.world)
      ∙ ap₂ (λ (k : Host) w. record k { world = flush w }) back same in
    rw (host, prev_kept frame jb a a1 actions h words entered ran guard small lo hi, g.depth)
      (ap (λ d. record (left a) { xs_depth = d }) (leave_depth a.xs_depth))

unwind-zero : (es : List HostSave) (m : Memory) → (unwind 0 es m).0 ≡ []
unfolding unwind
unwind-zero [] m = refl
unwind-zero (e ∷ es) m = rw (positive (length es)) (unwind-zero es (restore e m))
  where
    positive : (n : ℕ) → ltb 0 (suc n) ≡ true
    positive n = ground arith

saves-leave :
    (b : Bool) (h : Host)
    → (if b then at_rest (hostsave_unwind_to 0 h) else hostsave_unwind_to 0 h).saves ≡ []
unfolding at_rest hostsave_unwind_to
saves-leave true h = unwind-zero h.saves h.memory
saves-leave false h = unwind-zero h.saves h.memory

-- The same XSUB croaking, on a frame whose fields were zero before the entry, as the loader makes
-- it: the first unwinding already restores those fields, so that the leave makes no frame current
-- and unwinds the whole save stack, the entries of the callers with it, whatever frame was current.
pub xs_croaked-xs_enter :
    (frame jb : ℕ) (a a1 : Activation) (actions : List Action) (h : Host)
    → IsMemory a.host.memory
    → load_ptr a.host.memory (prev_at frame) ≡ 0
    → a.host.memory (base_at frame) ≡ 0
    → xs_enter frame jb a ≡ some a1
    → run actions a1.host ≡ some h
    → Guarded [] actions
    → All (Spares (base_at frame)) actions
    → let r = xs_croaked frame (record a1 { host = h }) in
      (r.cur_frame ≡ 0) × (r.host.saves ≡ []) × (r.xs_depth ≡ a.xs_depth)
unfolding xs_croaked xs_leave
xs_croaked-xs_enter frame jb a a1 actions h words prev base entered ran guard sb =
    let g = xs_enter-IsEntered frame jb a a1 entered in
    let back : hostsave_unwind_to (h.memory (base_at frame)) h ≡ a.host =
      ap (λ b. hostsave_unwind_to b h)
        (base_kept frame jb a a1 actions h words entered ran guard sb)
      ∙ unwound frame jb a a1 actions h words entered ran guard in
    rw (back, prev, base, g.depth)
      (
        refl,
        saves-leave (leb (a.xs_depth + 1) 1) (record (a.host) { world = flush a.host.world }),
        leave_depth a.xs_depth,
      )
