-- ===== src/Save/Activation/Hooks/Examples.antt =====
-- A pp hook that saves a pointer, writes to it and croaks.
use go_perl.Prelude.{false, ℕ, refl, Option, none, some, [], arith}
use go_perl.Bridge.{Guest}
use go_perl.Save.{Host, hostsave_ptr, act, run}
use go_perl.Save.Examples.{idle, pointer}
use go_perl.Optree.Build.{GuestText}
use go_perl.Optree.Registry.{blank}
use go_perl.Save.Activation.Hooks.{
  HookState, Ended, finished, croaked, pp_enter, marked, pp_shadow, pp_invoke,
}
use go_perl.Save.Activation.Hooks.Ends.{end_marks, entry_memory, IsBack, pp_invoke-IsBack}

abbrev silent : Guest
silent = record { answer = λ log call. 0 }

abbrev no_text : GuestText
no_text = λ log packed. none

abbrev before : HookState
before = record {
  act = record { host = idle; cur_frame = 50; xs_depth = 1 };
  tree = record {
    world = idle.world;
    ops = λ a. blank;
    buckets = [];
    opext = [];
    next = 1;
    persist_mode = false;
    strings = [];
  };
}

-- How the hook ends, with the host state that its actions lead to.
abbrev ending : HookState → Option Host → Ended
ending s none = finished 0 s
ending s (some h) = croaked (λ x. 0) (record s { act = record (s.act) { host = h } })

abbrev hook : ℕ → HookState → Ended
hook plop s = ending s (run pointer s.act.host)

pp_invoke-IsBack_example :
    let (plop, s') =
      pp_shadow silent no_text 100 64 (record before { act = pp_enter 100 900 before.act }) in
    IsBack
      (end_marks 100 (hook plop s') (entry_memory 100 900 plop before.act))
      before.act
      (pp_invoke silent no_text 100 900 64 hook before).1.act
unfolding pp_shadow pp_enter run act hostsave_ptr marked
pp_invoke-IsBack_example =
    pp_invoke-IsBack silent no_text 100 900 64 hook pointer before (λ x. omega arith) (omega arith)
      (omega arith) (refl, tt)
      (
        (tt, ((λ e. omega arith), tt)),
        (tt, ((λ e. omega arith), tt)),
        (tt, ((λ e. omega arith), tt)),
      )
      ((refl, refl), (refl, tt)) (_, _, refl, refl)
