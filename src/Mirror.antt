-- ===== src/Mirror.antt =====
-- The host mirrors of xs/sdk/include/perl.h that back the lvalue macros: `SvIVX`, `AvARRAY`,
-- `SvCUR`, `PL_hints`, the interpreter variables and the die and warn hooks.
pub mod Quiet
pub mod Examples
pub mod Iv
use go_perl.Prelude.{
  ℕ, zero, suc, ◌+◌, ◌*◌, ◌%◌, ◌^◌, Bool, true, false, Option, none, some, List, [], ◌∷◌, ◌++◌,
  ◌==◌, ltb, leb, if◌then◌else◌, length, get_or, set,
}
use go_perl.Bridge.{
  xs_op, sv_iv, Log, Guest, Slot, World, emit, iv_mirrors_full, av_mirrors_full, Outcome, done,
  croaked,
}
use go_perl.Bridge.Op.{plvar_get, av_len, av_fetch, sv_cur}
use go_perl.Flush.{svcur_writeback, flush, do_op, pl_diehook, pl_warnhook, pl_hints}

-- The first entry with the token, as the lookup loops find it.
module _ {A : Type 0} (token : A → ℕ) where
  pub find : ℕ → List A → Option ℕ
  find tok [] = none
  find tok (m ∷ ms) =
      let rest = find tok ms in
      if token m == tok then some 0 else elim rest [ none ↦ none | some i ↦ some (suc i) ]

-- The change of the entry at an index.
pub modify {ℓ} : {A : Type ℓ} → ℕ → (A → A) → List A → List A
modify i f [] = []
modify zero f (x ∷ xs) = f x ∷ xs
modify (suc i) f (x ∷ xs) = x ∷ modify i f xs

-- The mirror of `tok` in `goperl_ivx_ref`: the live one, or the next entry of the table, which
-- keeps the value and the shadow that it has.
pub iv_slot : ℕ → World → Outcome ℕ
unfolding find
iv_slot tok w = elim (find (λ m. m.svtok) tok w.shared.ivmirrors) [
  | some i ↦ done i w
  | none ↦ elim (w.shared.iv_free) [
    | [] ↦ croaked iv_mirrors_full w
    | m ∷ rest ↦ done (length w.shared.ivmirrors) (record w {
      shared = record (w.shared) {
        ivmirrors = w.shared.ivmirrors ++ (record m { svtok = tok } ∷ []);
        iv_free = rest;
      };
    })
  ]
]

-- The rest of `goperl_ivx_ref`: flush, then refresh the mirror from the guest.
pub iv_refresh : Guest → ℕ → ℕ → World → World
iv_refresh g tok i w =
    let f = flush w in
    let v = g.answer f.log (sv_iv tok) in
    record f {
      shared = record (f.shared) {
        ivmirrors = modify i (λ m. record m { val = v; shadow = v }) f.shared.ivmirrors;
      };
      log = emit (sv_iv tok) f.log;
    }

-- `goperl_ivx_ref`; the result is the index of the mirror whose `val` is handed out.
pub ivx_ref : Guest → ℕ → World → Outcome ℕ
ivx_ref g tok w = elim (iv_slot tok w) [
  | croaked c w' ↦ croaked c w'
  | done i w' ↦ done i (iv_refresh g tok i w')
]

-- The module's assignment through the pointer.
pub iv_assign : ℕ → ℕ → World → World
iv_assign i v w = record w {
  shared = record (w.shared) {
    ivmirrors = modify i (λ m. record m { val = v }) w.shared.ivmirrors;
  };
}

abbrev pub avmirror_max : ℕ
avmirror_max = 64

-- The mirror of `tok` in `goperl_av_array`.
pub av_slot : ℕ → World → Outcome ℕ
unfolding find
av_slot tok w = elim (find (λ m. m.avtok) tok w.shared.avmirrors) [
  | some i ↦ done i w
  | none ↦
      if leb avmirror_max (length w.shared.avmirrors)
      then croaked av_mirrors_full w
      else done (length w.shared.avmirrors) (record w {
        shared = record (w.shared) {
          avmirrors = w.shared.avmirrors ++ (record { avtok = tok; slots = []; cap = 64 } ∷ []);
        };
      })
]

-- `(int32_t)(int64_t)r + 1`; a negative length makes every loop empty, as 0 does.
pub av_length : ℕ → ℕ
av_length r = let n = (r + 1) % 2 ^ 32 in if ltb n (2 ^ 31) then n else 0

-- `while (ncap < len) ncap *= 2;`
pub grow_cap : ℕ → ℕ → ℕ → ℕ
grow_cap zero cap len = cap
grow_cap (suc fuel) cap len =
    let more = grow_cap fuel (cap * 2) len in if ltb cap len then more else cap

-- The loop that refreshes both arrays, `left` elements from `i` on.
pub fetch_slots : Guest → ℕ → ℕ → ℕ → Log → List Slot × Log
fetch_slots g tok i zero log = ([], log)
fetch_slots g tok i (suc left) log =
    let call = xs_op av_fetch tok i [] in
    let v = g.answer log call in
    let (rest, log') = fetch_slots g tok (i + 1) left (emit call log) in
    (record { buf = v; shadow = v } ∷ rest, log')

-- The rest of `goperl_av_array`: flush, then refresh. 32 doublings reach every `int32_t`.
pub av_refresh : Guest → ℕ → ℕ → World → World
unfolding av_length grow_cap fetch_slots
av_refresh g tok i w =
    let f = flush w in
    let call = xs_op av_len tok 0 [] in
    let len = av_length (g.answer f.log call) in
    let (slots, log) = fetch_slots g tok 0 len (emit call f.log) in
    record f {
      shared = record (f.shared) {
        avmirrors =
            modify i (λ m. record m { slots = slots; cap = grow_cap 32 m.cap len })
              f.shared.avmirrors;
      };
      log = log;
    }

-- `goperl_av_array`; the result is the index of the mirror whose `buf` is handed out.
pub av_array : Guest → ℕ → World → Outcome ℕ
av_array g tok w = elim (av_slot tok w) [
  | croaked c w' ↦ croaked c w'
  | done i w' ↦ done i (av_refresh g tok i w')
]

-- The module's assignment to element `j` of the array.
pub av_assign : ℕ → ℕ → ℕ → World → World
av_assign i j v w = record w {
  shared = record (w.shared) {
    avmirrors =
        modify i (λ m. record m { slots = modify j (λ s. record s { buf = v }) m.slots })
          w.shared.avmirrors;
  };
}

-- `goperl_plint_ref`: read through unless a write is pending, and count as written.
pub plint_ref : Guest → ℕ → World → World
plint_ref g id w =
    let s = get_or w.shared.plshadow id (record { val = 0; dirty = false }) in
    let call = xs_op plvar_get id 0 [] in
    if s.dirty then w else record w {
      shared = record (w.shared) {
        plshadow = set w.shared.plshadow id (record { val = g.answer w.log call; dirty = true });
      };
      log = emit call w.log;
    }

-- The assignment through the pointer that it returns.
pub plint_assign : ℕ → ℕ → World → World
plint_assign id v w = record w {
  shared = record (w.shared) { plshadow = modify id (λ s. record s { val = v }) w.shared.plshadow };
}

-- `goperl_hook_ref` with `which` 0 for the die hook (`true`), 1 for the warn hook.
pub hook_ref : Guest → Bool → World → World
hook_ref g true w =
    let call = xs_op plvar_get pl_diehook 0 [] in
    if w.frame.die_dirty then w else record w {
      frame = record (w.frame) { die_val = g.answer w.log call; die_dirty = true };
      log = emit call w.log;
    }
hook_ref g false w =
    let call = xs_op plvar_get pl_warnhook 0 [] in
    if w.frame.warn_dirty then w else record w {
      frame = record (w.frame) { warn_val = g.answer w.log call; warn_dirty = true };
      log = emit call w.log;
    }

-- `goperl_hints_ref`
pub hints_ref : Guest → World → World
hints_ref g w =
    let (r, w') = do_op g plvar_get pl_hints 0 [] w in
    let v = r % 2 ^ 32 in
    record w' { shared = record (w'.shared) { hints_slot = v; hints_base = v; hints_live = true } }

-- `goperl_svcur_lv`
pub svcur_lv : Guest → ℕ → World → World
svcur_lv g tok w =
    let (r, w') = do_op g sv_cur tok 0 [] (svcur_writeback w) in
    if w.shared.svcur_sv == tok
    then w
    else record w' { shared = record (w'.shared) { svcur_val = r; svcur_orig = r; svcur_sv = tok } }
