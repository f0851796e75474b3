-- ===== src/Calls/Dispatch.antt =====
-- `goperl_pp_dispatch` (xs/sdk/include/perl.h): a module calls a slot of `PL_ppaddr`, for the op
-- that the interpreter executes, or for a scratch op that it built itself.
use go_perl.Prelude.{
  ℕ, ◌+◌, ◌-◌, ◌*◌, ◌/◌, ◌%◌, ◌^◌, ◌≤◌, ◌<◌, ◌≡◌, ◌≢◌, refl, not, [], ltb, ◌==◌, if◌then◌else◌,
  length, arith, Bool-cases, inl, inr,
}
use go_perl.Bridge.{Guest, World}
use go_perl.Bridge.Op.{run_original, run_pp}
use go_perl.Flush.{do_op}
use go_perl.Marks.{xs_stack, stack_extend}
use go_perl.Marks.Law.{stack_extend-fits}
use go_perl.Optree.{Optree}
use go_perl.Optree.Build.{GuestText, op_shadow_full}
use go_perl.Calls.{CallFrame, arg_bytes, push_results}
use go_perl.Calls.Results.{ArePushed, push_results-ArePushed}

-- `PL_op`, as far as it is read: no op, one of the module's own with its flags, or the
-- interpreter's.
pub data PlOp : Type 0 where
  no_op : PlOp
  scratch : ℕ → PlOp
  real : PlOp

-- The end of a dispatch: the next op, results in place of the arguments, or a croak.
pub data Dispatched : Type 0 where
  next_op : ℕ → Optree → Dispatched
  replaced : CallFrame → Dispatched
  unsupported underflow stack_overflow : CallFrame → Dispatched

-- `OP_FLOP`, and the arguments that it takes.
abbrev pub op_flop : ℕ
op_flop = 182

abbrev pub flop_nargs : ℕ
flop_nargs = 2

abbrev pub op_flags_of : PlOp → ℕ
op_flags_of no_op = 0
op_flags_of (scratch flags) = flags
op_flags_of real = 0

-- What the interpreter is asked to run: the flags, the type and the arguments.
abbrev pub flop_asked : Guest → ℕ → CallFrame → ℕ × World
flop_asked g flags f =
    do_op g run_pp (flags * 2 ^ 32 + op_flop) (flop_nargs * 4)
      (arg_bytes f.st (f.sp - flop_nargs + 1) flop_nargs) f.world

-- The part for the module's own op, behind the choice of `nargs`.
pub pp_scratch : Guest → ℕ → CallFrame → Dispatched
pp_scratch g flags f =
    let (packed, w) = flop_asked g flags f in
    let count = packed / 2 ^ 32 % 2 ^ 31 in
    let base = f.sp - flop_nargs in
    let (st, log) = push_results g (packed % 2 ^ 32) base 0 count f.st w.log in
    if ltb f.sp flop_nargs
    then underflow f
    else if not (stack_extend base count)
    then stack_overflow (record f { sp = base; world = w })
    else replaced (record f { st = st; sp = base + count; world = record w { log = log } })

-- `goperl_pp_dispatch`; the tree's world is the frame's.
pub pp_dispatch : Guest → GuestText → ℕ → PlOp → Optree → CallFrame → Dispatched
unfolding pp_scratch
pp_dispatch g text type real t f =
    let (next, w) = do_op g run_original (type % 2 ^ 32) 0 [] f.world in
    let (a, t') = op_shadow_full g text next (record t { world = w }) in next_op a t'
pp_dispatch g text type no_op t f = if type == op_flop then pp_scratch g 0 f else unsupported f
pp_dispatch g text type (scratch flags) t f =
    if type == op_flop then pp_scratch g flags f else unsupported f

-- The results stand in place of the two arguments, and the stack below them is as it was.
module _ (g : Guest) (flags : ℕ) (f : CallFrame) where
  abbrev pub flop_count : ℕ
  flop_count = (flop_asked g flags f).0 / 2 ^ 32 % 2 ^ 31

  abbrev pub IsFlopped : Dispatched → Type 0
  IsFlopped (replaced k) =
      (flop_nargs ≤ f.sp)
      × (k.sp ≡ f.sp - flop_nargs + flop_count)
      × (k.marks ≡ f.marks)
      × ArePushed g ((flop_asked g flags f).0 % 2 ^ 32) (f.sp - flop_nargs) 0 flop_count f.st
          (flop_asked g flags f).1.log (k.st, k.world.log)
  IsFlopped (underflow k) = (f.sp < flop_nargs) × (k ≡ f)
  IsFlopped (stack_overflow k) = xs_stack ≤ f.sp - flop_nargs + flop_count
  IsFlopped (unsupported k) = ⊥
  IsFlopped (next_op a t) = ⊥

  pp_scratch_lem : length f.st ≡ xs_stack → IsFlopped (pp_scratch g flags f)
  unfolding pp_scratch
  pp_scratch_lem size =
      let base = f.sp - flop_nargs in
      let fits = stack_extend-fits base flop_count in
      elim (Bool-cases (ltb f.sp flop_nargs)) [
        | inl low ↦ rw low (ground arith, refl)
        | inr high ↦
            let enough : flop_nargs ≤ f.sp = ground arith in
            elim (Bool-cases (stack_extend base flop_count)) [
              | inr over ↦ rw (high, over) (fits.1 over)
              | inl room ↦
                  rw (high, room)
                    (
                      enough,
                      refl,
                      refl,
                      push_results-ArePushed g ((flop_asked g flags f).0 % 2 ^ 32) base 0 flop_count
                          f.st (flop_asked g flags f).1.log (omega (arith, size, fits.0 room)),
                    )
            ]
      ]

-- The dispatch of the flip-flop, where no op or one of the module's own is executed: on a frame with
-- its stack, the interpreter is asked once, with the op's flags and the two top tokens. Its results
-- stand in their place, with the marks and the stack below as they were, unless there are fewer
-- than two tokens, when the frame stays as it is, or the results do not fit.
pub pp_dispatch_lem :
    (g : Guest) (text : GuestText) (cur : PlOp) (t : Optree) (f : CallFrame)
    → cur ≢ real
    → length f.st ≡ xs_stack
    → IsFlopped g (op_flags_of cur) f (pp_dispatch g text op_flop cur t f)
unfolding pp_dispatch
pp_dispatch_lem g text no_op t f own size = pp_scratch_lem g 0 f size
pp_dispatch_lem g text (scratch flags) t f own size = pp_scratch_lem g flags f size
pp_dispatch_lem g text real t f own size = absurd (own refl)
