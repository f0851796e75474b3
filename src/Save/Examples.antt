-- ===== src/Save/Examples.antt =====
-- The save stack at concrete states.
use go_perl.Prelude.{◌+◌, ◌^◌, ◌≡◌, refl, false, List, [], ◌∷◌, arith}
use go_perl.Bridge.{Guest, World}
use go_perl.Bridge.Op.{enter}
use go_perl.Flush.{do_op}
use go_perl.Save.{
  Memory, store, Host, hostsave_i32, enter_scope, leave_scope, Action, save_ptr, save_i32, write,
}
use go_perl.Save.Restore.{leave_scope-hostsave_i32}

abbrev pub quiet : World
quiet = record {
  log = [];
  shared = record {
    svcur_sv = 0;
    svcur_val = 0;
    svcur_orig = 0;
    hints_slot = 0;
    hints_base = 0;
    hints_live = false;
    plshadow = [];
    ivmirrors = [];
    iv_free = [];
    avmirrors = [];
    gen = 0;
  };
  frame = record { die_dirty = false; warn_dirty = false; die_val = 0; warn_val = 0 };
  pp = record { inited = false; slots = [] };
}

abbrev pub zeroes : Memory
zeroes x = 0

abbrev pub idle : Host
idle = record { memory = zeroes; saves = []; scope = 2 ^ 31; world = quiet }

abbrev silent : Guest
silent = record { answer = λ log call. 0 }

-- Two locations saved and written, one of them twice.
abbrev both : List Action
both = save_ptr 10 ∷ write 11 5 ∷ save_i32 20 ∷ write 20 6 ∷ write 11 7 ∷ []

abbrev with_both : Host
with_both = record idle {
  memory = store (store (store zeroes 11 5) 20 6) 11 7;
  saves =
      record { loc = 20; val = 0; scope = 2 ^ 31; width = 4 }
      ∷ record { loc = 10; val = 0; scope = 2 ^ 31; width = 0 }
      ∷ [];
}

abbrev pub pointer : List Action
pointer = save_ptr 10 ∷ write 11 5 ∷ []

abbrev inner : Host
inner = record idle {
  memory = store zeroes 11 5;
  saves = record { loc = 10; val = 0; scope = 2 ^ 31 + 1; width = 0 } ∷ [];
  scope = 2 ^ 31 + 1;
  world = (do_op silent enter 0 0 [] quiet).1;
}

abbrev saved_int : Host
saved_int = record idle {
  saves = record { loc = 10; val = 0; scope = 2 ^ 31 + 1; width = 4 } ∷ [];
  scope = 2 ^ 31 + 1;
  world = (do_op silent enter 0 0 [] quiet).1;
}

leave_scope-hostsave_i32_example : (leave_scope silent saved_int).memory 11 ≡ 0
unfolding hostsave_i32 enter_scope
leave_scope-hostsave_i32_example =
    leave_scope-hostsave_i32 silent 10 idle saved_int (λ x. omega arith) (omega arith) tt refl
