-- ===== src/Calls/Deliver.antt =====
-- How the results of a call are delivered, and what `call_method` and `eval_sv` make of it.
use go_perl.Prelude.{
  ℕ, zero, suc, ◌+◌, ◌-◌, ◌*◌, ◌/◌, ◌%◌, ◌^◌, ◌≤◌, ◌≡◌, refl, ap, Bool, true, false, ◌&&◌, ◌==◌,
  List, [], ◌∷◌, ◌++◌, length, take, bit_and, arith, Bool-cases, inl, inr,
}
use go_perl.Bridge.{Guest, World}
use go_perl.Bridge.Op.{call_method, eval_sv}
use go_perl.Flush.{do_op}
use go_perl.Marks.{xs_stack, popmark, stack_extend}
use go_perl.Marks.Law.{stack_extend-fits}
use go_perl.Calls.{
  CallFrame, Returned, returned, stack_overflow, died, arg_bytes, g_eval, deliver, do_call_method,
  method_bytes, do_eval_sv,
}
use go_perl.Calls.Results.{ArePushed, push_results-ArePushed}

-- An operation of the frame `f`, whose answer is `packed`, with the world `w` behind it.
module _ (g : Guest) (flags packed : ℕ) (w : World) (mark : ℕ) (f : CallFrame) where
  abbrev pub delivered_count : ℕ
  delivered_count = packed / 2 ^ 32 % 2 ^ 31

  abbrev pub delivered_death : Bool
  delivered_death = packed / 2 ^ 63 == 1 && bit_and flags g_eval == 0

  abbrev pub Delivered : Returned → Type 0
  Delivered (returned n k) =
      (n ≡ delivered_count)
      × (delivered_death ≡ false)
      × (k.sp ≡ mark + delivered_count)
      × (k.marks ≡ f.marks)
      × ArePushed g (packed % 2 ^ 32) mark 0 delivered_count f.st w.log (k.st, k.world.log)
  Delivered (stack_overflow k) = xs_stack ≤ mark + delivered_count
  Delivered (died k) = delivered_death ≡ true

  pub deliver-Delivered : length f.st ≡ xs_stack → Delivered (deliver g flags packed w mark f)
  unfolding deliver
  deliver-Delivered size = elim (Bool-cases (stack_extend mark delivered_count)) [
    | inr over ↦ rw over ((stack_extend-fits mark delivered_count).1 over)
    | inl fits ↦ elim (Bool-cases delivered_death) [
      | inl dead ↦ rw (fits, dead) dead
      | inr alive ↦
          rw (fits, alive)
            (
              refl,
              alive,
              refl,
              refl,
              push_results-ArePushed g (packed % 2 ^ 32) mark 0 delivered_count f.st w.log
                  (omega (arith, size, (stack_extend-fits mark delivered_count).0 fits)),
            )
    ]
  ]

take_all : (n : ℕ) (s : List ℕ) → length s ≤ n → take n s ≡ s
take_all zero [] h = refl
take_all zero (c ∷ s) h = absurd (omega arith)
take_all (suc n) [] h = refl
take_all (suc n) (c ∷ s) h = ap (λ l. c ∷ l) (take_all n s (omega arith))

-- On a frame with its stack, `call_method` with a name of at most 254 bytes asks the interpreter
-- once, with the name, a NUL and the tokens between the mark and the stack pointer, and delivers
-- the results from the mark on, as `call_sv` does.
pub do_call_method_lem :
    (g : Guest) (name : List ℕ) (flags : ℕ) (f : CallFrame)
    → length f.st ≡ xs_stack
    → length name ≤ 254
    → let (mark, marks) = popmark f.marks in
      let bytes = (name ++ (0 ∷ [])) ++ arg_bytes f.st (mark + 1) (f.sp - mark) in
      let (packed, w) =
        do_op g call_method (flags % 2 ^ 32 * 2 ^ 32) (length bytes) bytes f.world in
      Delivered g flags packed w mark (record f { marks = marks }) (do_call_method g name flags f)
unfolding do_call_method method_bytes
do_call_method_lem g name flags f size short =
    let (mark, marks) = popmark f.marks in
    let whole = take_all 254 name short in
    rw whole (
      let bytes = (name ++ (0 ∷ [])) ++ arg_bytes f.st (mark + 1) (f.sp - mark) in
      let asked = do_op g call_method (flags % 2 ^ 32 * 2 ^ 32) (length bytes) bytes f.world in
      deliver-Delivered g flags asked.0 asked.1 mark (record f { marks = marks }) size)

-- On a frame with its stack, `eval_sv` asks the interpreter once and delivers the results above the
-- stack pointer: the marks and what stands up to the pointer stay as they were.
pub do_eval_sv_lem :
    (g : Guest) (sv flags : ℕ) (f : CallFrame)
    → length f.st ≡ xs_stack
    → let (packed, w) = do_op g eval_sv (flags % 2 ^ 32 * 2 ^ 32 + sv % 2 ^ 32) 0 [] f.world in
      Delivered g flags packed w f.sp f (do_eval_sv g sv flags f)
unfolding do_eval_sv
do_eval_sv_lem g sv flags f size =
    let asked = do_op g eval_sv (flags % 2 ^ 32 * 2 ^ 32 + sv % 2 ^ 32) 0 [] f.world in
    deliver-Delivered g flags asked.0 asked.1 f.sp f size
