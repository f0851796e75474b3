-- ===== src/Magic/WriteBack.antt =====
-- An assignment to `SvMAGIC` reaches the loader with the next use of `SvMAGIC`.
use mathlib.Core.List.{append-nil, append_assoc}
use go_perl.Prelude.{
  ℕ, ◌%◌, ◌^◌, ◌≡◌, ◌≢◌, refl, sym, ap, ◌∙◌, inl, inr, false, not, ◌&&◌, List, [], ◌∷◌, ◌++◌, ◌==◌,
  arith, Bool-cases,
}
use go_perl.Bridge.{Guest, World, Log, magic_chain, magic_set_head}
use go_perl.Bridge.Op.{sv_unmagic}
use go_perl.Flush.{flush}
use go_perl.Flush.Spec.{pending, when}
use go_perl.Flush.Funnel.{flush_lem, pending-flush, do_op_lem}
use go_perl.Magic.{
  MagicSlot, svmagic_writeback, svmagic_lv, svmagic_assign, Magic, MagicOp, finding, attaching,
  detaching, heading, unmagicking, tying, mg_find, flushed_call, sv_magicext, sv_unmagicext,
  svmagic_set, sv_unmagic_both, sv_magic, magic_op, magic_ops,
}

-- Nothing is pending after a call, whatever it adds to the log.
pending-log : (w : World) (log : Log) → pending (record w { log = log }) ≡ pending w
unfolding pending
pending-log w log = refl

pending-called : (w : World) (log : Log) → pending (record (flush w) { log = log }) ≡ []
pending-called w log = pending-log (flush w) log ∙ pending-flush w

pending-magic_op :
    (g : Guest) (chains : Log → ℕ → List Magic) (op : MagicOp) (w : World)
    → pending (magic_op g chains op w) ≡ []
unfolding magic_op flushed_call mg_find sv_magicext sv_unmagicext svmagic_set sv_unmagic_both
    sv_magic
pending-magic_op g chains (finding sv type) w = pending-called w _
pending-magic_op g chains (attaching sv obj how vtbl name) w = pending-called w _
pending-magic_op g chains (detaching sv how vtbl) w = pending-called w _
pending-magic_op g chains (heading sv mg) w = pending-called w _
pending-magic_op g chains (unmagicking sv how) w = (do_op_lem g sv_unmagic sv (how % 2 ^ 32) [] _).1
pending-magic_op g chains (tying sv obj how name) w = pending-called _ _

-- The slot holds `val` for `sv`, read as `orig`, and nothing is pending.
abbrev Slotted : ℕ → ℕ → ℕ → MagicSlot → Type 0
Slotted sv val orig m =
    (m.svmagic_sv ≡ sv) × (m.svmagic_val ≡ val) × (m.svmagic_orig ≡ orig) × (pending m.world ≡ [])

magic_ops-Slotted :
    (g : Guest) (chains : Log → ℕ → List Magic) (ops : List MagicOp) (sv val orig : ℕ)
    (m : MagicSlot)
    → Slotted sv val orig m
    → Slotted sv val orig (magic_ops g chains ops m)
unfolding magic_ops
magic_ops-Slotted g chains [] sv val orig m h = h
magic_ops-Slotted g chains (op ∷ ops) sv val orig m (a, b, c, d) =
    magic_ops-Slotted g chains ops sv val orig (record m { world = _ })
      (a, b, c, pending-magic_op g chains op m.world)

-- Reading the slot of an SV, from any state.
svmagic_lv-Slotted :
    (g : Guest) (sv : ℕ) (m : MagicSlot)
    → Slotted sv (svmagic_lv g sv m).svmagic_val (svmagic_lv g sv m).svmagic_val (svmagic_lv g sv m)
unfolding svmagic_lv
svmagic_lv-Slotted g sv m = (refl, refl, refl, pending-called (svmagic_writeback m) _)

svmagic_writeback-eq :
    (m : MagicSlot)
    → svmagic_writeback m ≡ record (m.world) {
      log =
          m.world.log
          ++ when
              (not (m.svmagic_sv == 0) && not (m.svmagic_val == m.svmagic_orig))
              (magic_set_head m.svmagic_sv m.svmagic_val);
    }
unfolding svmagic_writeback
svmagic_writeback-eq m =
    elim (Bool-cases (not (m.svmagic_sv == 0) && not (m.svmagic_val == m.svmagic_orig))) [
      | inl q ↦ rw q refl
      | inr q ↦ rw q (ap (λ (l : Log). record (m.world) { log = l }) (sym (append-nil m.world.log)))
    ]

flush-log : (w : World) → pending w ≡ [] → (flush w).log ≡ w.log
flush-log w quiet =
    ap (λ (v : World). v.log) (flush_lem w) ∙ ap (λ l. w.log ++ l) quiet ∙ append-nil w.log

-- The log of the flush that a use of a slot begins with.
writeback-log :
    (sv val orig : ℕ) (m : MagicSlot)
    → sv ≢ 0
    → Slotted sv val orig m
    → (flush (svmagic_writeback m)).log
      ≡ m.world.log ++ when (not (val == orig)) (magic_set_head sv val)
writeback-log sv val orig m nz (is_sv, is_val, is_orig, quiet) =
    let there : (sv == 0) ≡ false = ground arith in
    rw svmagic_writeback-eq
      (flush-log _ (pending-log m.world _ ∙ quiet) ∙ rw (is_sv, is_val, is_orig, there) refl)

-- What is assigned to `SvMAGIC` of an SV that is not null goes to the loader once, if it is another
-- head than was read, when `SvMAGIC` of any SV is used next: behind the calls of all magic
-- operations in between, which leave it alone, and ahead of the reading of the new chain. The slot
-- then holds what the loader answers for the new SV.
pub svmagic_lv-svmagic_assign :
    (g : Guest) (chains : Log → ℕ → List Magic) (ops : List MagicOp) (sv mg sv' : ℕ) (m : MagicSlot)
    → sv ≢ 0
    → (let m₁ = svmagic_lv g sv m in
        let m₂ = magic_ops g chains ops (svmagic_assign mg m₁) in
        let m₃ = svmagic_lv g sv' m₂ in
        let told = m₂.world.log ++ when (not (mg == m₁.svmagic_val)) (magic_set_head sv mg) in
        (m₃.world.log ≡ told ++ (magic_chain sv' ∷ []))
        × (m₃.svmagic_sv ≡ sv')
        × (m₃.svmagic_val ≡ g.answer told (magic_chain sv'))
        × (m₃.svmagic_orig ≡ m₃.svmagic_val))
unfolding svmagic_lv svmagic_assign
svmagic_lv-svmagic_assign g chains ops sv mg sv' m nz =
    let m₁ = svmagic_lv g sv m in
    let (r_sv, r_val, r_orig, r_quiet) = svmagic_lv-Slotted g sv m in
    let m₂ = magic_ops g chains ops (svmagic_assign mg m₁) in
    let slotted =
      magic_ops-Slotted g chains ops sv mg m₁.svmagic_val (svmagic_assign mg m₁)
        (r_sv, refl, r_orig, r_quiet) in
    let log = writeback-log sv mg m₁.svmagic_val m₂ nz slotted in
    (
      ap (λ l. l ++ (magic_chain sv' ∷ [])) log,
      refl,
      ap (λ l. g.answer l (magic_chain sv')) log,
      refl,
    )

-- A head that `SvMAGIC_set` gives an SV after another one was assigned to its `SvMAGIC` does not
-- stay: the assigned head is sent after it.
pub svmagic_set-overwritten :
    (g : Guest) (chains : Log → ℕ → List Magic) (sv a b : ℕ) (m : MagicSlot)
    → sv ≢ 0
    → (a == (svmagic_lv g sv m).svmagic_val) ≡ false
    → (svmagic_lv g sv
        (magic_ops g chains (heading sv b ∷ []) (svmagic_assign a (svmagic_lv g sv m)))).world.log
      ≡ (svmagic_lv g sv m).world.log
        ++ (magic_set_head sv b ∷ magic_set_head sv a ∷ magic_chain sv ∷ [])
unfolding magic_ops magic_op svmagic_set flushed_call svmagic_assign
svmagic_set-overwritten g chains sv a b m nz other =
    let m₁ = svmagic_lv g sv m in
    let quiet = (svmagic_lv-Slotted g sv m).3 in
    let sent = svmagic_lv-svmagic_assign g chains (heading sv b ∷ []) sv a sv m nz in
    sent.0 ∙ rw (other, flush-log m₁.world quiet) (simp append_assoc)
