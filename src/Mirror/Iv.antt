-- ===== src/Mirror/Iv.antt =====
-- `SvIVX` as an lvalue: `goperl_ivx_ref`, the module's assignment and the next flush.
use go_perl.Prelude.{
  ℕ, ◌≡◌, refl, ap, ◌∙◌, Option, none, some, List, [], ◌∷◌, ◌++◌, get_elem?, not, ◌==◌, length, All,
  ==_refl,
}
use mathlib.Core.Path.{ap₂}
use go_perl.Bridge.{iv_mirrors_full, xs_op, sv_iv, Guest, IvMirror, World, Outcome, done, croaked}
use go_perl.Bridge.Op.{sv_setiv}
use go_perl.Flush.{flush}
use go_perl.Flush.Loop.{each_calls}
use go_perl.Flush.Spec.{when, ivmirror_clean, ivmirror_calls, pending, settled}
use go_perl.Flush.Funnel.{flush_lem, pending-flush}
use go_perl.Mirror.{find, iv_slot, iv_refresh, ivx_ref, iv_assign}
use go_perl.Mirror.Quiet.{
  pending-IsQuiet, pending-ivmirrors, each_calls-modify, get_elem?-modify, modify-modify,
  get_elem?-append_length, each_calls-append, get_elem?-each_clean, find-get_elem?,
}

-- An entry that owes the guest nothing.
abbrev pub Clean : IvMirror → Type 0
Clean m = m.val ≡ m.shadow

abbrev pub mirror_of : ℕ → ℕ → ℕ → IvMirror
mirror_of tok v s = record { svtok = tok; val = v; shadow = s }

-- The change that the refresh makes.
abbrev refreshed : ℕ → IvMirror → IvMirror
refreshed v m = record m { val = v; shadow = v }

module _ (g : Guest) (tok i : ℕ) (w : World) (m : IvMirror)
    (at : get_elem? w.shared.ivmirrors i ≡ some m) (same : m.svtok ≡ tok) where
  flushed_at : get_elem? (flush w).shared.ivmirrors i ≡ some (ivmirror_clean i m)
  unfolding settled
  flushed_at = rw (flush_lem w) (get_elem?-each_clean ivmirror_clean 0 i w.shared.ivmirrors at)

  log_of_flush : (flush w).log ≡ w.log ++ pending w
  log_of_flush = rw (flush_lem w) refl

  iv_refresh-at :
      let v = g.answer (w.log ++ pending w) (sv_iv tok) in
      get_elem? (iv_refresh g tok i w).shared.ivmirrors i ≡ some (mirror_of tok v v)
  unfolding iv_refresh
  iv_refresh-at =
      get_elem?-modify _ i (flush w).shared.ivmirrors flushed_at ∙ rw (log_of_flush, same) refl

  iv_refresh-log : (iv_refresh g tok i w).log ≡ (w.log ++ pending w) ++ (sv_iv tok ∷ [])
  unfolding iv_refresh
  iv_refresh-log = rw log_of_flush refl

  iv_refresh-free : (iv_refresh g tok i w).shared.iv_free ≡ w.shared.iv_free
  unfolding iv_refresh settled
  iv_refresh-free = rw (flush_lem w) refl

  iv_refresh-pending : pending (iv_refresh g tok i w) ≡ []
  unfolding iv_refresh
  iv_refresh-pending =
      let q = pending-IsQuiet (flush w) (pending-flush w) in
      pending-ivmirrors (flush w) _ q _
      ∙ each_calls-modify ivmirror_calls _ 0 i _ (q.ivmirrors)
      ∙ rw flushed_at (rw (==_refl (g.answer (flush w).log (sv_iv tok))) refl)

  iv_refresh-assign :
      (x : ℕ)
      → pending (iv_assign i x (iv_refresh g tok i w))
        ≡ when (not (x == g.answer (w.log ++ pending w) (sv_iv tok))) (xs_op sv_setiv tok x [])
  unfolding iv_refresh iv_assign
  iv_refresh-assign x =
      let q = pending-IsQuiet (flush w) (pending-flush w) in
      pending-ivmirrors (flush w) _ q _
      ∙ ap (each_calls ivmirror_calls 0) (modify-modify _ _ i (flush w).shared.ivmirrors)
      ∙ each_calls-modify ivmirror_calls _ 0 i _ (q.ivmirrors)
      ∙ rw (flushed_at, log_of_flush, same) refl

-- A mirror of the token stands at the index; nothing was called and nothing more is pending.
pub record IsSlot (tok : ℕ) (w : World) (i : ℕ) (w' : World) : Type 0 where
  pub mirror : (m : IvMirror) × (get_elem? w'.shared.ivmirrors i ≡ some m) × (m.svtok ≡ tok)
  pub same_log : w'.log ≡ w.log
  pub same_pending : pending w' ≡ pending w
  pub free : All Clean w'.shared.iv_free

-- The table has no entry for the token and none left.
abbrev pub IsFull : ℕ → World → Type 0
IsFull tok w = (find (λ m. m.svtok) tok w.shared.ivmirrors ≡ none) × (w.shared.iv_free ≡ [])

abbrev Slotted : ℕ → World → Outcome ℕ → Type 0
Slotted tok w (done i w') = IsSlot tok w i w'
Slotted tok w (croaked c w') = IsFull tok w × (w' ≡ w)

slotted :
    (tok : ℕ) (w : World) (r : Option ℕ) (free : List IvMirror)
    → find (λ m. m.svtok) tok w.shared.ivmirrors ≡ r
    → w.shared.iv_free ≡ free
    → All Clean free
    → Slotted tok w (elim r [
      | some i ↦ done i w
      | none ↦ elim free [
        | [] ↦ croaked iv_mirrors_full w
        | m ∷ rest ↦ done (length w.shared.ivmirrors) (record w {
          shared = record (w.shared) {
            ivmirrors = w.shared.ivmirrors ++ (record m { svtok = tok } ∷ []);
            iv_free = rest;
          };
        })
      ]
    ])
unfolding pending
slotted tok w (some i) free e h clean = record {
  mirror = find-get_elem? (λ m. m.svtok) tok w.shared.ivmirrors i e;
  same_log = refl;
  same_pending = refl;
  free = rw h clean;
}
slotted tok w none [] e h clean = ((e, h), refl)
slotted tok w none (m ∷ rest) e h clean = record {
  mirror = (
    record m { svtok = tok },
    get_elem?-append_length w.shared.ivmirrors (record m { svtok = tok }),
    refl,
  );
  same_log = refl;
  same_pending = rw (
      each_calls-append ivmirror_calls 0 w.shared.ivmirrors (record m { svtok = tok })
        (λ k. rw (clean.0) (rw (==_refl m.shadow) refl)));
  free = clean.1;
}

iv_slot_lem : (tok : ℕ) (w : World) → All Clean w.shared.iv_free → Slotted tok w (iv_slot tok w)
unfolding iv_slot
iv_slot_lem tok w clean = slotted tok w _ (w.shared.iv_free) refl refl clean

-- What the module sees of `SvIVX(sv)`.
abbrev pub IvxResult : Guest → ℕ → World → Outcome ℕ → Type 0
IvxResult g tok w (croaked c w') = IsFull tok w × (w' ≡ w)
IvxResult g tok w (done i w') =
    let before = w.log ++ pending w in
    let v = g.answer before (sv_iv tok) in
    (w'.log ≡ before ++ (sv_iv tok ∷ []))
    × (get_elem? w'.shared.ivmirrors i ≡ some (mirror_of tok v v))
    × (pending w' ≡ [])
    × ((x : ℕ) → pending (iv_assign i x w') ≡ when (not (x == v)) (xs_op sv_setiv tok x []))
    × All Clean w'.shared.iv_free

refresh_slot :
    (g : Guest) (tok : ℕ) (w : World) (r : Outcome ℕ)
    → Slotted tok w r
    → IvxResult g tok w
        (elim r [ croaked c w' ↦ croaked c w' | done i w' ↦ done i (iv_refresh g tok i w') ])
refresh_slot g tok w (croaked c w') s = s
refresh_slot g tok w (done i w') s =
    let (m, at, same) = s.mirror in
    let before : w'.log ++ pending w' ≡ w.log ++ pending w =
      ap₂ (λ a b. a ++ b) s.same_log s.same_pending in
    (
      iv_refresh-log g tok i w' m at same ∙ ap (λ l. l ++ (sv_iv tok ∷ [])) before,
      iv_refresh-at g tok i w' m at same
          ∙ ap (λ l. some (mirror_of tok (g.answer l (sv_iv tok)) (g.answer l (sv_iv tok)))) before,
      iv_refresh-pending g tok i w' m at same,
      λ x.
          iv_refresh-assign g tok i w' m at same x
          ∙ ap (λ l. when (not (x == g.answer l (sv_iv tok))) (xs_op sv_setiv tok x [])) before,
      rw (iv_refresh-free g tok i w' m at same) (s.free),
    )

-- When no table entry that is not live owes the guest a write, `SvIVX(sv)` either croaks, and then
-- the table has no entry for `sv` and none left and nothing has changed; or it hands out a mirror
-- of `sv` that holds the guest's value as of after the pending writes, nothing is pending, and
-- the assignment of `x` through it makes exactly `sv_setiv(sv, x)` pending if `x` differs from
-- that value, and nothing otherwise. No entry that is not live owes a write afterwards either.
pub ivx_ref_lem :
    (g : Guest) (tok : ℕ) (w : World)
    → All Clean w.shared.iv_free
    → IvxResult g tok w (ivx_ref g tok w)
unfolding ivx_ref
ivx_ref_lem g tok w clean = refresh_slot g tok w (iv_slot tok w) (iv_slot_lem tok w clean)
