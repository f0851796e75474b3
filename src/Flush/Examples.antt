-- ===== src/Flush/Examples.antt =====
-- The funnel at a world in which every part has a write pending.
use go_perl.Prelude.{◌+◌, ◌^◌, ◌≡◌, refl, true, false, some, [], ◌∷◌, ◌++◌}
use go_perl.Bridge.{xs_op, pp_hook_set, Log, Guest, World}
use go_perl.Bridge.Op.{sv_cur_set, plvar_set, sv_setiv, av_store_raw, sv_len}
use go_perl.Flush.{flush, do_op}
use go_perl.Flush.Spec.{pending, settled}
use go_perl.Flush.Funnel.{flush_lem, do_op_lem}

-- The third variable is written, the SvIVX of the SV 40 and element 1 of the array 50 are changed,
-- PL_hints and the warn hook are set, SvCUR of the SV 60 is 5, and opcode 1 is hooked.
abbrev busy : World
busy = record {
  log = [];
  shared = record {
    svcur_sv = 60;
    svcur_val = 5;
    svcur_orig = 9;
    hints_slot = 256;
    hints_base = 0;
    hints_live = true;
    plshadow =
        record { val = 0; dirty = false }
        ∷ record { val = 0; dirty = false }
        ∷ record { val = 7; dirty = true }
        ∷ [];
    ivmirrors = record { svtok = 40; val = 3; shadow = 2 } ∷ [];
    iv_free = [];
    avmirrors =
        record {
          avtok = 50;
          slots = record { buf = 8; shadow = 8 } ∷ record { buf = 9; shadow = 8 } ∷ [];
          cap = 64;
        }
        ∷ [];
    gen = 0;
  };
  frame = record { die_dirty = false; warn_dirty = true; die_val = 0; warn_val = 70 };
  pp = record {
    inited = true;
    slots =
        record { addr = 1; base = 1; installed = false }
        ∷ record { addr = 99; base = 1; installed = false }
        ∷ [];
  };
}

-- What it owes, in order.
abbrev owed : Log
owed =
    xs_op sv_cur_set 60 5 []
    ∷ xs_op plvar_set 24 256 []
    ∷ xs_op plvar_set 2 70 []
    ∷ xs_op plvar_set 2 7 []
    ∷ xs_op sv_setiv 40 3 []
    ∷ xs_op av_store_raw 50 (2 ^ 32 + 9) []
    ∷ pp_hook_set 1 (some 99)
    ∷ []

-- A guest that answers 11 to everything.
abbrev eleven : Guest
eleven = record { answer = λ log call. 11 }

busy_owes : pending busy ≡ owed
unfolding pending
busy_owes = refl

flush_lem_example : flush busy ≡ record (settled busy) { log = owed }
unfolding pending
flush_lem_example = flush_lem busy

do_op_lem_example :
    (do_op eleven sv_len 1 0 [] busy ≡ (
      11,
      record (settled busy) {
        shared = record ((settled busy).shared) { gen = 1 };
        log = owed ++ (xs_op sv_len 1 0 [] ∷ []);
      },
    ))
    × (pending (do_op eleven sv_len 1 0 [] busy).1 ≡ [])
unfolding pending
do_op_lem_example = do_op_lem eleven sv_len 1 0 [] busy
