-- ===== src/Mirror/Examples.antt =====
-- `SvIVX` in a fresh state.
use go_perl.Prelude.{refl, false, [], ◌∷◌}
use go_perl.Bridge.{Guest, World, done}
use go_perl.Mirror.{iv_slot, iv_refresh, ivx_ref}
use go_perl.Mirror.Iv.{mirror_of, IvxResult, ivx_ref_lem}

-- No mirror is live, two entries are left.
abbrev fresh : World
fresh = record {
  log = [];
  shared = record {
    svcur_sv = 0;
    svcur_val = 0;
    svcur_orig = 0;
    hints_slot = 0;
    hints_base = 0;
    hints_live = false;
    plshadow = [];
    ivmirrors = [];
    iv_free = mirror_of 0 0 0 ∷ mirror_of 0 0 0 ∷ [];
    avmirrors = [];
    gen = 0;
  };
  frame = record { die_dirty = false; warn_dirty = false; die_val = 0; warn_val = 0 };
  pp = record { inited = false; slots = [] };
}

-- Every SV is 5.
abbrev five : Guest
five = record { answer = λ log call. 5 }

ivx_ref_lem_example : IvxResult five 40 fresh (
    done 0 (
      iv_refresh five 40 0 (record fresh {
        shared = record (fresh.shared) {
          ivmirrors = mirror_of 40 0 0 ∷ [];
          iv_free = mirror_of 0 0 0 ∷ [];
        };
      })))
unfolding ivx_ref iv_slot
ivx_ref_lem_example = ivx_ref_lem five 40 fresh (refl, (refl, tt))
