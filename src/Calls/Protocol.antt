-- ===== src/Calls/Protocol.antt =====
-- `do_call` as a whole: the arguments, the results and the two ways to croak.
use go_perl.Prelude.{
  ℕ, ◌+◌, ◌-◌, ◌*◌, ◌/◌, ◌%◌, ◌^◌, ◌≤◌, ◌≡◌, Bool, true, false, ◌&&◌, ◌==◌, length, bit_and,
}
use go_perl.Bridge.{Guest, World}
use go_perl.Bridge.Op.{call_sv}
use go_perl.Flush.{do_op}
use go_perl.Marks.{xs_stack, popmark}
use go_perl.Calls.{
  CallFrame, Returned, returned, stack_overflow, died, arg_bytes, g_eval, deliver, do_call,
}
use go_perl.Calls.Deliver.{Delivered, deliver-Delivered}
use go_perl.Calls.Results.{ArePushed}

-- What the interpreter is asked, through the funnel, and its answer.
module _ (g : Guest) (sv flags : ℕ) (f : CallFrame) where
  abbrev pub mark_of : ℕ
  mark_of = (popmark f.marks).0

  abbrev pub asked : ℕ × World
  asked =
      let bytes = arg_bytes f.st (mark_of + 1) (f.sp - mark_of) in
      do_op g call_sv (flags % 2 ^ 32 * 2 ^ 32 + sv % 2 ^ 32) (length bytes) bytes f.world

  abbrev pub count_of : ℕ
  count_of = asked.0 / 2 ^ 32 % 2 ^ 31

  abbrev pub uncaught : Bool
  uncaught = asked.0 / 2 ^ 63 == 1 && bit_and flags g_eval == 0

  -- The results stand from the mark on, the stack up to it is as it was, and the calls after the
  -- operation are the fetches of the results.
  abbrev pub Results : CallFrame → Type 0
  Results k =
      (k.sp ≡ mark_of + count_of)
      × (k.marks ≡ (popmark f.marks).1)
      × ArePushed g (asked.0 % 2 ^ 32) mark_of 0 count_of f.st asked.1.log (k.st, k.world.log)

  abbrev pub CallResult : Returned → Type 0
  CallResult (returned n k) = (n ≡ count_of) × (uncaught ≡ false) × Results k
  CallResult (stack_overflow k) = xs_stack ≤ mark_of + count_of
  CallResult (died k) = uncaught ≡ true

  CallResult-Delivered :
      (r : Returned)
      → Delivered g flags asked.0 asked.1 mark_of (record f { marks = (popmark f.marks).1 }) r
      → CallResult r
  CallResult-Delivered (returned n k) (all, alive, sp, marks, pushed) =
      (all, alive, (sp, marks, pushed))
  CallResult-Delivered (stack_overflow k) h = h
  CallResult-Delivered (died k) h = h

  -- On a frame with its stack, `call_sv` asks the interpreter once, with the tokens between the
  -- mark and the stack pointer. It returns the count with the results on the stack from the mark
  -- on, and the stack below as it was, unless they do not fit, or the callee died and the caller
  -- did not ask for G_EVAL.
  pub do_call_lem : length f.st ≡ xs_stack → CallResult (do_call g sv flags f)
  unfolding do_call
  do_call_lem size =
      let called = record f { marks = (popmark f.marks).1 } in
      CallResult-Delivered (deliver g flags asked.0 asked.1 mark_of called)
        (deliver-Delivered g flags asked.0 asked.1 mark_of called size)
