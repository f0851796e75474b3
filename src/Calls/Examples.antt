-- ===== src/Calls/Examples.antt =====
-- A call with one argument on an otherwise empty frame.
use go_perl.Prelude.{ℕ, List, none, false, suc, ap, [], ◌∷◌}
use go_perl.Bridge.{Guest}
use go_perl.Save.Examples.{quiet}
use go_perl.Marks.Examples.{zeroes, length-zeroes}
use go_perl.Calls.{CallFrame, do_call}
use go_perl.Optree.Examples.{tree}
use go_perl.Calls.Dispatch.{scratch, op_flop, pp_dispatch, IsFlopped, pp_dispatch_lem}
use go_perl.Calls.Protocol.{CallResult, do_call_lem}

-- The token 40 stands above the mark at 0.
abbrev calling : CallFrame
calling = record {
  marks = record { marks = 0 ∷ []; count = 1; owner = false; ptr = 0 };
  st = 0 ∷ 40 ∷ zeroes 510;
  sp = 1;
  world = quiet;
}

-- The interpreter answers the call with one result, in the array 50.
abbrev one_result : Guest
one_result = record { answer = λ log call. 4294967346 }

do_call_lem_example : CallResult one_result 60 0 calling (do_call one_result 60 0 calling)
do_call_lem_example =
    do_call_lem one_result 60 0 calling (ap (λ n. suc (suc n)) (length-zeroes 510))

abbrev fetch_name : List ℕ
fetch_name = b'F' ∷ b'E' ∷ []

-- Two tokens, and no text in the interpreter.
abbrev two_tokens : CallFrame
two_tokens = record calling { st = 0 ∷ 40 ∷ 41 ∷ zeroes 509; sp = 2 }

pp_dispatch_lem_example :
    IsFlopped one_result 8 two_tokens
      (pp_dispatch one_result (λ log packed. none) op_flop (scratch 8) tree two_tokens)
pp_dispatch_lem_example =
    pp_dispatch_lem one_result (λ log packed. none) (scratch 8) tree two_tokens (λ e. cc)
      (ap (λ n. suc (suc (suc n))) (length-zeroes 509))
