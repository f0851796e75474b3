-- ===== src/Calls.antt =====
-- `goperl_do_call` for `call_sv` and `call_method`, `goperl_call_pv`, `goperl_eval_sv` and
-- `goperl_do_join` (xs/sdk/include/perl.h): the arguments behind the last mark go to the
-- interpreter as 32-bit tokens, and the results are pushed where they stood. The marks are those of
-- the frame; a croak leaves with the frame as it is then.
pub mod Results
pub mod Examples
pub mod Deliver
pub mod Dispatch
pub mod Join
pub mod Protocol
use go_perl.Prelude.{
  ℕ, zero, suc, ◌+◌, ◌-◌, ◌*◌, ◌/◌, ◌%◌, ◌^◌, Bool, true, false, ◌&&◌, not, List, [], ◌∷◌, ◌++◌,
  ◌==◌, if◌then◌else◌, get_or, set, length, take, bit_and,
}
use go_perl.Bridge.{Call, xs_op, Log, Guest, World, emit}
use go_perl.Bridge.Op.{call_sv, call_method, eval_sv, get_cv, av_fetch, errsv, sv_setpvn, sv_catsv}
use go_perl.Flush.{do_op}
use go_perl.Marks.{Marks, popmark, stack_extend}

-- The part of `goperl_frame_t` that the call uses; `sp` is the index of the stack pointer in `st`.
pub record CallFrame : Type 0 where
  pub marks : Marks
  pub st : List ℕ
  pub sp : ℕ
  pub world : World

pub data Returned : Type 0 where
  returned : ℕ → CallFrame → Returned
  stack_overflow died : CallFrame → Returned

-- A token as the four bytes that `memcpy` takes of a `uint32_t`.
abbrev pub token_bytes : ℕ → List ℕ
token_bytes tok = tok % 256 ∷ tok / 2 ^ 8 % 256 ∷ tok / 2 ^ 16 % 256 ∷ tok / 2 ^ 24 % 256 ∷ []

-- The bytes of the arguments from `st[i]` on, `left` of them to go.
pub arg_bytes : List ℕ → ℕ → ℕ → List ℕ
arg_bytes st i zero = []
arg_bytes st i (suc left) = token_bytes (get_or st i 0) ++ arg_bytes st (i + 1) left

-- The loop that pushes the results of the array `avtok` from element `i` on, by the raw vtable:
-- the stack, and the calls made.
pub push_results : Guest → ℕ → ℕ → ℕ → ℕ → List ℕ → Log → List ℕ × Log
push_results g avtok sp i zero st log = (st, log)
push_results g avtok sp i (suc left) st log =
    let call = xs_op av_fetch avtok i [] in
    push_results g avtok (sp + 1) (i + 1) left (set st (sp + 1) (g.answer log call)) (emit call log)

-- `G_EVAL`
abbrev pub g_eval : ℕ
g_eval = 8

-- What follows the call: the results of the answer `packed` are pushed from `mark` on, and a death
-- that the caller did not ask to catch is a croak.
pub deliver : Guest → ℕ → ℕ → World → ℕ → CallFrame → Returned
deliver g flags packed w mark f =
    let count = packed / 2 ^ 32 % 2 ^ 31 in
    let consumed = record f { sp = mark; world = w } in
    let (st, log) = push_results g (packed % 2 ^ 32) mark 0 count f.st w.log in
    let pushed = record consumed { st = st; sp = mark + count; world = record w { log = log } } in
    let failed = record pushed { world = record w { log = emit (xs_op errsv 0 0 []) log } } in
    if not (stack_extend mark count)
    then stack_overflow consumed
    else if packed / 2 ^ 63 == 1 && bit_and flags g_eval == 0
    then died failed
    else returned count pushed

-- `goperl_do_call` for `call_sv`
pub do_call : Guest → ℕ → ℕ → CallFrame → Returned
unfolding deliver
do_call g sv flags f =
    let (mark, marks) = popmark f.marks in
    let bytes = arg_bytes f.st (mark + 1) (f.sp - mark) in
    let (packed, w) =
      do_op g call_sv (flags % 2 ^ 32 * 2 ^ 32 + sv % 2 ^ 32) (length bytes) bytes f.world in
    deliver g flags packed w mark (record f { marks = marks })

-- A method's name as it goes in front of the arguments, with its NUL.
pub method_bytes : List ℕ → List ℕ
method_bytes name = take 254 name ++ (0 ∷ [])

-- `goperl_do_call` for `call_method`
pub do_call_method : Guest → List ℕ → ℕ → CallFrame → Returned
unfolding deliver method_bytes
do_call_method g name flags f =
    let (mark, marks) = popmark f.marks in
    let bytes = method_bytes name ++ arg_bytes f.st (mark + 1) (f.sp - mark) in
    let (packed, w) = do_op g call_method (flags % 2 ^ 32 * 2 ^ 32) (length bytes) bytes f.world in
    deliver g flags packed w mark (record f { marks = marks })

-- `GV_ADD`
abbrev pub gv_add : ℕ
gv_add = 1

-- `goperl_call_pv`
pub call_pv : Guest → List ℕ → ℕ → CallFrame → Returned
unfolding do_call
call_pv g name flags f =
    let (cv, w) = do_op g get_cv gv_add 0 name f.world in
    do_call g cv flags (record f { world = w })

-- `goperl_eval_sv`, which takes no mark and no argument.
pub do_eval_sv : Guest → ℕ → ℕ → CallFrame → Returned
unfolding deliver
do_eval_sv g sv flags f =
    let (packed, w) = do_op g eval_sv (flags % 2 ^ 32 * 2 ^ 32 + sv % 2 ^ 32) 0 [] f.world in
    deliver g flags packed w f.sp f

-- `goperl_do_join`: the SVs from `mark + 1` to `sp`, `first` as long as none was appended.
pub join_loop : Guest → ℕ → ℕ → Bool → List ℕ → World → World
join_loop g sv delim first [] w = w
join_loop g sv delim first (p ∷ items) w =
    let w' = if first then w else (do_op g sv_catsv sv delim [] w).1 in
    join_loop g sv delim false items (do_op g sv_catsv sv p [] w').1

pub do_join : Guest → ℕ → ℕ → List ℕ → World → World
unfolding join_loop
do_join g sv delim items w = join_loop g sv delim true items (do_op g sv_setpvn sv 0 [] w).1
