-- ===== src/Parser/Examples.antt =====
-- The theorems on the parser at a line of ten bytes.
use go_perl.Prelude.{
  ℕ, ◌+◌, ◌≡◌, ◌==◌, if◌then◌else◌, refl, arith, true, false, Option, none, some, List, [], ◌∷◌,
}
use go_perl.Bridge.{Guest, Call, xs_op, guest_mem, emit}
use go_perl.Bridge.Op.{parser_get}
use go_perl.Save.{Host, Action, save_i32, write, run}
use go_perl.Save.Undo.{Guarded}
use go_perl.Save.Restore.{run_nil}
use go_perl.Save.Examples.{quiet}
use go_perl.PerlIo.Examples.{placed}
use go_perl.Optree.Registry.{blank}
use go_perl.Parser.{
  Compile, parser_pull, parser_push, set_field, parser_present, parser_pv, parser_bufptr,
  parser_error_count, parser_in_my, lex_read_to, outside_buffer,
}
use go_perl.Parser.Position.{lex_read_to_lem}
use go_perl.Parser.Pulled.{advance, parser_push-parser_pull}
use go_perl.Parser.Plugin.{Invocation, Plugins, Plugged, plugin, croaking, keyword_invoke}
use go_perl.Parser.Plugin.Restores.{
  plugged_state, host_at, Disciplined, IsBack, keyword_invoke-IsBack,
}

-- The string of the line stands at 100, the lexer at 102.
abbrev at_102 : Compile
at_102 = record {
  tree = record {
    world = quiet;
    ops = λ a. blank;
    buckets = [];
    opext = [];
    next = 1;
    persist_mode = false;
    strings = [];
  };
  parser = record {
    linestr = 9;
    bufptr = 65536 + 102;
    oldbufptr = 65536 + 100;
    bufend = 65536 + 110;
    linestart = 65536 + 100;
    error_count = 0;
    in_my = 0;
    lex_flags = 0;
    preambling = 0;
  };
  present = true;
  pvg = 100;
}

-- An interpreter whose parser stands at 102.
abbrev fields : ℕ → ℕ
fields n =
    if n == parser_present
    then 1
    else if n == parser_pv
    then 100
    else if n == parser_bufptr
    then 102
    else 0

abbrev answers : Call → ℕ
answers (xs_op parser_get field b s) = fields field
answers (guest_mem gp) = 65536 + gp
answers call = 0

abbrev steady : Guest
steady = record { answer = λ log call. answers call }

parser_push-parser_pull_example :
    let p = parser_pull steady at_102 in
    let w = p.tree.world in
    let seen = record w { log = emit (guest_mem 100) w.log } in
    let counted = set_field steady parser_error_count 0 (set_field steady parser_bufptr 105 seen) in
    (p.parser.bufptr ≡ 65536 + 102)
    × ((parser_push steady (advance 3 p)).tree.world ≡ set_field steady parser_in_my 0 counted)
parser_push-parser_pull_example =
    parser_push-parser_pull steady fields 65536 3 at_102 (λ log field. refl) (λ log gp. refl)
      (λ e. omega arith) (λ e. omega arith) (omega arith) (omega arith) (omega arith) (omega arith)
      (omega arith)

lex_read_to_lem_example : lex_read_to placed (65536 + 111) at_102 ≡ outside_buffer at_102
lex_read_to_lem_example =
    lex_read_to_lem placed 65536 102 110 111 at_102 (λ log gp. refl) refl (omega arith) refl refl
      (omega arith) (omega arith) (omega arith)

-- A plugin that saves the word at 7, writes to it and croaks; it croaks at once if the save stack is
-- full.
abbrev saved_7 : List Action
saved_7 = save_i32 7 ∷ write 7 9 ∷ []

abbrev after_7 : Invocation → Option Host → Plugged
after_7 s none = croaking s
after_7 s (some h) = croaking (record s { saves = h.saves; memory = h.memory })

abbrev croaks : Plugins
croaks = λ n word s. after_7 s (run saved_7 (host_at 0 s))

croaks-Disciplined : Disciplined croaks
croaks-Disciplined n word s = go (run saved_7 (host_at 0 s)) refl
  where
    go :
        (r : Option Host)
        → run saved_7 (host_at 0 s) ≡ r
        → let s' = plugged_state (after_7 s r) in
          (s'.depth ≡ s.depth)
          × (s'.frame_base ≡ s.frame_base)
          × (s'.frame_prev ≡ s.frame_prev)
          × (scope : ℕ) × (actions : List Action) × (h : Host) × Guarded [] actions
          × (run actions (host_at scope s) ≡ some h)
          × (s'.saves ≡ h.saves)
          × (s'.memory ≡ h.memory)
    go none e = (refl, refl, refl, 0, [], host_at 0 s, tt, run_nil (host_at 0 s), refl, refl)
    go (some h) e = (refl, refl, refl, 0, saved_7, h, (refl, tt), e, refl, refl)

abbrev called : Invocation
called = record {
  compile = at_102;
  chains = record { kw_head = some (plugin 1); infix_head = none };
  saves = [];
  memory = λ loc. 0;
  cur_frame = 5;
  depth = 1;
  frame_jb = 0;
  frame_prev = 0;
  frame_base = 0;
}

keyword_invoke-IsBack_example :
    IsBack called (keyword_invoke placed true croaks 7 8 0 (b't' ∷ []) called)
keyword_invoke-IsBack_example =
    keyword_invoke-IsBack placed true croaks 7 8 0 (b't' ∷ []) called (λ x. omega arith)
      croaks-Disciplined
