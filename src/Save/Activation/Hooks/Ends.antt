-- ===== src/Save/Activation/Hooks/Ends.antt =====
-- What a call of a pp hook leaves of the activation, whether the hook returns or croaks.
use mathlib.Core.Path.{subst, ap₂}
use go_perl.Prelude.{
  ℕ, ◌+◌, ◌-◌, ◌*◌, ◌^◌, ◌<◌, ◌≡◌, refl, sym, ap, ◌∙◌, Bool, true, false, some, List, [], leb,
  if◌then◌else◌, length, All, arith,
}
use go_perl.Bridge.{Guest, World}
use go_perl.Flush.{flush}
use go_perl.Optree.Build.{GuestText}
use go_perl.Save.{Memory, store, load_ptr, store_ptr, Host, hostsave_unwind_to, Action, run}
use go_perl.Save.Undo.{IsMemory, Guarded, store-IsMemory}
use go_perl.Save.Restore.{hostsave_unwind_to-run}
use go_perl.Save.Activation.{base_at, prev_at, Activation, at_rest, xs_leave}
use go_perl.Save.Activation.Entry.{run-spared}
use go_perl.Save.Activation.Leave.{SparesFields, unwind-world, leave_depth}
use go_perl.Save.Activation.Hooks.{
  HookState, Ended, finished, croaked, plop_at, marked, croak_marks, raised, pp_armed, pp_enter,
  pp_shadow, pp_left, pp_end, pp_invoke,
}
use go_perl.Save.Activation.Hooks.Marks.{
  Clear, croak_marks-clear, croak_marks-IsMemory, raise_host, run_raised,
}

abbrev pub end_state : Ended → HookState
end_state (finished next s) = s
end_state (croaked err s) = s

-- What the hook does to the host state: saves and writes, and calls of the interpreter.
abbrev pub Performs : List Action → HookState → Ended → Type 0
Performs actions s r =
    (h : Host) × (w : World) × (run actions s.act.host ≡ some h)
    × ((end_state r).act ≡ record (s.act) { host = record h { world = w } })

-- The memory as the entry leaves it to the hook: four fields of the frame are assigned.
abbrev pub entry_memory : ℕ → ℕ → ℕ → Activation → Memory
entry_memory frame own plop a =
    store_ptr (pp_armed frame own a.cur_frame (length a.host.saves) a.host.memory) (plop_at frame)
      plop

-- The words that the end of the hook writes: those of a croak, or none.
abbrev pub end_marks : ℕ → Ended → Memory → Memory
end_marks frame (finished next s) m = m
end_marks frame (croaked err s) m = croak_marks frame err m

-- The activation `b` is `a` again, but for the memory, which is `m`.
pub record IsBack (m : Memory) (a b : Activation) : Type 0 where
  pub cur : b.cur_frame ≡ a.cur_frame
  pub depth : b.xs_depth ≡ a.xs_depth
  pub saves : b.host.saves ≡ a.host.saves
  pub memory : b.host.memory ≡ m

at_rest_memory : (b : Bool) (h : Host) → (if b then at_rest h else h).memory ≡ h.memory
unfolding at_rest
at_rest_memory true h = refl
at_rest_memory false h = refl

at_rest_saves : (b : Bool) (h : Host) → (if b then at_rest h else h).saves ≡ h.saves
unfolding at_rest
at_rest_saves true h = refl
at_rest_saves false h = refl

-- A leave in a state from which unwinding leads to the host state with the memory `m`.
xs_leave-IsBack :
    (frame : ℕ) (m : Memory) (a b : Activation)
    → b.xs_depth ≡ a.xs_depth + 1
    → b.host.memory (base_at frame) ≡ length a.host.saves
    → load_ptr b.host.memory (prev_at frame) ≡ a.cur_frame
    → hostsave_unwind_to (length a.host.saves) b.host
      ≡ record (a.host) { memory = m; world = b.host.world }
    → IsBack m a (xs_leave frame b)
unfolding xs_leave
xs_leave-IsBack frame m a b deep base prev back =
    let k =
      hostsave_unwind_to (b.host.memory (base_at frame))
        (record (b.host) { world = flush b.host.world }) in
    let is : k ≡ record (a.host) { memory = m; world = flush b.host.world } =
      ap (λ n. hostsave_unwind_to n (record (b.host) { world = flush b.host.world })) base
      ∙ unwind-world (length a.host.saves) b.host (flush b.host.world)
      ∙ ap (λ (h : Host). record h { world = flush b.host.world }) back in
    record {
      cur = prev;
      depth = ap (λ d. if leb d 1 then 0 else d - 1) deep ∙ leave_depth a.xs_depth;
      saves = at_rest_saves (leb b.xs_depth 1) k ∙ ap (λ h. h.saves) is;
      memory = at_rest_memory (leb b.xs_depth 1) k ∙ ap (λ h. h.memory) is;
    }

-- What a hook that performs the actions leaves, from a state with the memory `m` on.
record IsAt (frame : ℕ) (m : Memory) (a b : Activation) : Type 0 where
  depth : b.xs_depth ≡ a.xs_depth + 1
  base : b.host.memory (base_at frame) ≡ length a.host.saves
  prev : load_ptr b.host.memory (prev_at frame) ≡ a.cur_frame
  back :
      hostsave_unwind_to (length a.host.saves) b.host
      ≡ record (a.host) { memory = m; world = b.host.world }

-- A memory of 32-bit words in which the entry's fields for the way back stand.
record IsArmed (frame : ℕ) (a : Activation) (m : Memory) : Type 0 where
  words : IsMemory m
  base : m (base_at frame) ≡ length a.host.saves
  prev : load_ptr m (prev_at frame) ≡ a.cur_frame

-- The activation behind the entry, with another memory and world.
abbrev entered : ℕ → Memory → World → Activation → Activation
entered frame m w a = record {
  host = record (a.host) { memory = m; world = w };
  cur_frame = frame;
  xs_depth = a.xs_depth + 1;
}

run-IsAt :
    (frame : ℕ) (m : Memory) (a : Activation) (w w' : World) (actions : List Action) (h : Host)
    → IsArmed frame a m
    → Guarded [] actions
    → SparesFields frame actions
    → run actions (entered frame m w a).host ≡ some h
    → IsAt frame m a (record (entered frame m w a) { host = record h { world = w' } })
run-IsAt frame m a w w' actions h armed guard (sb, lo, hi) ran =
    let k = (entered frame m w a).host in
    record {
      depth = refl;
      base = run-spared (base_at frame) actions k h sb ran ∙ armed.base;
      prev =
          ap₂ (λ x y. x + y * 2 ^ 32) (run-spared (prev_at frame) actions k h lo ran)
            (run-spared (prev_at frame + 1) actions k h hi ran)
          ∙ armed.prev;
      back =
          unwind-world (length a.host.saves) h w'
          ∙ ap (λ (z : Host). record z { world = w' })
              (hostsave_unwind_to-run actions k h armed.words guard ran);
    }

entered-IsAt :
    (frame : ℕ) (m : Memory) (a : Activation) (w : World)
    → IsArmed frame a m
    → IsAt frame m a (entered frame m w a)
entered-IsAt frame m a w armed =
    run-IsAt frame m a w w [] (entered frame m w a).host armed tt (tt, tt, tt) (unfold run in refl)

IsAt-IsBack :
    (frame : ℕ) (m : Memory) (a b : Activation) → IsAt frame m a b → IsBack m a (xs_leave frame b)
IsAt-IsBack frame m a b at = xs_leave-IsBack frame m a b at.depth at.base at.prev at.back

-- The state in which the end of the hook arrives at the entry.
abbrev arrived : ℕ → Ended → Activation
arrived frame (finished next s) = s.act
arrived frame (croaked err s) = raised frame err s.act

pp_end-IsBack :
    (frame : ℕ) (m : Memory) (a : Activation) (r : Ended)
    → IsArmed frame a m
    → (arrived frame r).cur_frame ≡ frame
    → IsAt frame m a (arrived frame r)
    → IsBack m a (pp_end frame r).1.act
unfolding pp_end pp_left
pp_end-IsBack frame m a (finished next s) armed cur at = IsAt-IsBack frame m a s.act at
pp_end-IsBack frame m a (croaked err s) armed cur at =
    let b = raised frame err s.act in
    let host : hostsave_unwind_to (b.host.memory (base_at frame)) b.host
        ≡ record (a.host) { memory = m; world = b.host.world } =
      ap (λ n. hostsave_unwind_to n b.host) at.base ∙ at.back in
    let unwound : record b { host = hostsave_unwind_to (b.host.memory (base_at frame)) b.host }
        ≡ entered frame m b.host.world a =
      λ i. record { host = host i; cur_frame = cur i; xs_depth = at.depth i } in
    subst (λ c. IsBack m a (xs_leave frame c)) (sym unwound)
      (IsAt-IsBack frame m a _ (entered-IsAt frame m a b.host.world armed))

entry_memory-IsArmed :
    (frame own plop : ℕ) (a : Activation)
    → IsMemory a.host.memory
    → a.cur_frame < 2 ^ 64
    → length a.host.saves < 2 ^ 32
    → IsArmed frame a (entry_memory frame own plop a)
unfolding pp_armed store_ptr
entry_memory-IsArmed frame own plop a words small few = record {
  words = store-IsMemory _ _ _ (
      store-IsMemory _ _ _ (
        store-IsMemory _ _ _ (
          store-IsMemory _ _ _
            (store-IsMemory _ _ _ (store-IsMemory _ _ _ (store-IsMemory _ _ _ words))))));
  base = unfold store in ground arith;
  prev = unfold store in ground arith;
}

croak_marks-IsArmed :
    (frame : ℕ) (err : ℕ → ℕ) (a : Activation) (m : Memory)
    → IsArmed frame a m
    → IsArmed frame a (croak_marks frame err m)
unfolding marked
croak_marks-IsArmed frame err a m armed = record {
  words = croak_marks-IsMemory frame err m armed.words;
  base = croak_marks-clear frame err m (base_at frame) (ground arith) ∙ armed.base;
  prev =
      ap₂ (λ x y. x + y * 2 ^ 32) (croak_marks-clear frame err m (prev_at frame) (ground arith))
        (croak_marks-clear frame err m (prev_at frame + 1) (ground arith))
      ∙ armed.prev;
}

hook-IsBack :
    (frame : ℕ) (m : Memory) (a : Activation) (w w' : World) (actions : List Action) (h : Host)
    (r : Ended)
    → IsArmed frame a m
    → Guarded [] actions
    → SparesFields frame actions
    → All (Clear frame) actions
    → run actions (entered frame m w a).host ≡ some h
    → (end_state r).act ≡ record (entered frame m w a) { host = record h { world = w' } }
    → IsBack (end_marks frame r m) a (pp_end frame r).1.act
unfolding raised
hook-IsBack frame m a w w' actions h (finished next s) armed guard spares clear ran is =
    pp_end-IsBack frame m a (finished next s) armed (ap (λ b. b.cur_frame) is)
      (subst (IsAt frame m a) (sym is) (run-IsAt frame m a w w' actions h armed guard spares ran))
hook-IsBack frame m a w w' actions h (croaked err s) armed guard spares clear ran is =
    let marks = croak_marks-IsArmed frame err a m armed in
    pp_end-IsBack frame (croak_marks frame err m) a (croaked err s) marks (ap (λ b. b.cur_frame) is)
      (subst (λ b. IsAt frame (croak_marks frame err m) a (raised frame err b)) (sym is)
        (run-IsAt frame (croak_marks frame err m) a w w' actions (raise_host frame err h) marks
          guard spares (run_raised frame err actions (entered frame m w a).host h clear ran)))

-- A pp hook that saves what it writes, spares the fields of the frame that the way back reads and
-- those that a croak writes, and calls the interpreter as it likes: whether it returns an op or
-- croaks, the call leaves the current frame, the depth and the save stack as before. The memory is
-- as before but for the four fields of the frame that the call assigned, and after a croak also
-- `failed` and `err`. The memory has 32-bit words, and a frame and the save stack fit theirs.
pub pp_invoke-IsBack :
    (g : Guest) (text : GuestText) (frame own tok : ℕ) (hook : ℕ → HookState → Ended)
    → (actions : List Action) → (s : HookState) → IsMemory s.act.host.memory
    → s.act.cur_frame < 2 ^ 64
    → length s.act.host.saves < 2 ^ 32
    → Guarded [] actions
    → SparesFields frame actions
    → All (Clear frame) actions
    → let (plop, s') = pp_shadow g text frame tok (record s { act = pp_enter frame own s.act }) in
      Performs actions s' (hook plop s')
      → IsBack
          (end_marks frame (hook plop s') (entry_memory frame own plop s.act))
          s.act
          (pp_invoke g text frame own tok hook s).1.act
unfolding pp_invoke pp_shadow pp_enter
pp_invoke-IsBack g text frame own tok hook actions s words small few guard spares clear performs =
    let (plop, s') = pp_shadow g text frame tok (record s { act = pp_enter frame own s.act }) in
    let (h, w, ran, is) = performs in
    hook-IsBack frame (entry_memory frame own plop s.act) s.act s'.act.host.world w actions h
      (hook plop s') (entry_memory-IsArmed frame own plop s.act words small few) guard spares clear
      ran is
