-- ===== src/Scratch/Blocks.antt =====
-- The blocks of `SSNEW`, which a destructor of the SDK's own frees.
use go_perl.Prelude.{
  ℕ, ◌+◌, ◌-◌, ◌<◌, ◌≡◌, ◌≢◌, ◌⊎◌, refl, ap, sym, ◌∙◌, Bool, true, false, ◌||◌, not, Option, none,
  some, List, [], ltb, ◌==◌, if◌then◌else◌, get_or, set, length, arith, Bool-cases, inl, inr,
  length-set, get_or-set, get_or-set_other, ==_iff, lt→ltb,
}
use go_perl.Bridge.{Guest}
use go_perl.Bridge.Op.{save_destructor}
use go_perl.Flush.{do_op}
use go_perl.Scratch.{
  dtor_max, no_dtor, Tables, scan, dtor_free, save_destructor_x, dtor_invoke, ssnew_free,
  ssnew_alloc, ssnew_free_cb,
}
use go_perl.Scratch.Slots.{scan-some, scan-full, Saved, save_destructor_x_lem}

-- Registering and firing a destructor leave the blocks alone.
abbrev SameBlocks : Tables → Option Tables → Type 0
SameBlocks t none = Unit {0}
SameBlocks t (some t') = t'.ssnew ≡ t.ssnew

save_destructor_x-SameBlocks :
    (g : Guest) (fn arg : ℕ) (t : Tables) → SameBlocks t (save_destructor_x g fn arg t)
unfolding save_destructor_x
save_destructor_x-SameBlocks g fn arg t =
    elim (scan (dtor_free t) t.dtor_hint 0 dtor_max)
      as (λ r. SameBlocks t (elim r [
        | none ↦ none
        | some id ↦ some (record t {
          dtor_hint = id + 1;
          dtors = set t.dtors id (record { fn = fn; arg = arg; used = true });
          world = (do_op g save_destructor (id + 1) 0 [] t.world).1;
        })
      ])) [ none ↦ _ | some id ↦ refl ]

dtor_invoke-ssnew : (id1 : ℕ) (t : Tables) → (dtor_invoke id1 t).1.ssnew ≡ t.ssnew
unfolding dtor_invoke
dtor_invoke-ssnew id1 t =
    let d = get_or t.dtors (id1 - 1) no_dtor in
    elim (Bool-cases (id1 == 0 || ltb dtor_max id1)) [
      | inl q ↦ rw q refl
      | inr q ↦ elim (Bool-cases (not d.used || (d.fn == 0))) [
        | inl r ↦ rw (q, r) refl
        | inr r ↦ rw (q, r) refl
      ]
    ]

-- What an allocated block is: its slot was free and now has the block, all others are as they were,
-- and the destructor of which the interpreter is told calls `goperl_ssnew_free_cb` on the slot,
-- after which all slots are as before the allocation.
pub record Reserved (g : Guest) (free_cb block : ℕ) (t : Tables) (ix : ℕ) (t' : Tables)
    : Type 0 where
  pub below : ix < dtor_max
  pub was_free : get_or t.ssnew ix 0 ≡ 0
  pub mem : get_or t'.ssnew ix 0 ≡ block
  pub others : (j : ℕ) → ix ≢ j → get_or t'.ssnew j 0 ≡ get_or t.ssnew j 0
  pub id : ℕ
  pub told : t'.world ≡ (do_op g save_destructor (id + 1) 0 [] t.world).1
  pub call : (dtor_invoke (id + 1) t').0 ≡ some (free_cb, ix)
  pub freed :
      (j : ℕ) → get_or (ssnew_free_cb ix (dtor_invoke (id + 1) t').1).ssnew j 0 ≡ get_or t.ssnew j 0

abbrev pub AllUsed : Tables → Type 0
AllUsed t =
    ((i : ℕ) → i < dtor_max → get_or t.ssnew i 0 ≢ 0)
    ⊎ ((i : ℕ) → i < dtor_max → (get_or t.dtors i no_dtor).used ≡ true)

abbrev pub Allocated : Guest → ℕ → ℕ → Tables → Option (ℕ × Tables) → Type 0
Allocated g free_cb block t none = AllUsed t
Allocated g free_cb block t (some (ix, t')) = Reserved g free_cb block t ix t'

-- The slots behind the callback, where the block stands in its slot.
freed_slots :
    (slots : List ℕ) (ix block j : ℕ) (t : Tables)
    → ix < dtor_max
    → ix < length slots
    → block ≢ 0
    → get_or slots ix 0 ≡ 0
    → t.ssnew ≡ set slots ix block
    → get_or (ssnew_free_cb ix t).ssnew j 0 ≡ get_or slots j 0
unfolding ssnew_free_cb
freed_slots slots ix block j t below inside real free is =
    let there : (block == 0) ≡ false = ground arith in
    let low = lt→ltb ix dtor_max below in
    rw (is, get_or-set slots ix block 0 inside, there, low)
      (elim (Bool-cases (ix == j)) [
        | inl q ↦
            let same : ix ≡ j = (==_iff ix j).0 q in
            ap (λ k. get_or (set (set slots ix block) ix 0) k 0) (sym same)
            ∙ get_or-set (set slots ix block) ix 0 0 (omega (arith, length-set slots ix block))
            ∙ sym free
            ∙ ap (λ k. get_or slots k 0) same
        | inr q ↦
            let other : ix ≢ j = ground arith in
            get_or-set_other (set slots ix block) ix j 0 0 other
            ∙ get_or-set_other slots ix j block 0 other
      ])

-- The end of `goperl_ssnew`, with the block in its slot.
reserve :
    (g : Guest) (free_cb block ix : ℕ) (t : Tables) (saved : Option Tables)
    → let t1 = record t { ssnew_hint = ix + 1; ssnew = set t.ssnew ix block } in
      length t.ssnew ≡ dtor_max
      → block ≢ 0
      → get_or t.ssnew ix 0 ≡ 0
      → ix < dtor_max
      → Saved g free_cb ix t1 saved
      → SameBlocks t1 saved
      → Allocated g free_cb block t (elim saved [ none ↦ none | some t2 ↦ some (ix, t2) ])
reserve g free_cb block ix t none size real free below h same = inr h
reserve g free_cb block ix t (some t2) size real free below h same =
    let inside : ix < length t.ssnew = omega (arith, size) in
    record {
      below = below;
      was_free = free;
      mem = ap (λ s. get_or s ix 0) same ∙ get_or-set t.ssnew ix block 0 inside;
      others = λ j other. ap (λ s. get_or s j 0) same ∙ get_or-set_other t.ssnew ix j block 0 other;
      id = h.id;
      told = h.told;
      call = h.call;
      freed = λ j.
          freed_slots t.ssnew ix block j (dtor_invoke (h.id + 1) t2).1 below inside real free
            (dtor_invoke-ssnew (h.id + 1) t2 ∙ same);
    }

Allocated-else :
    (g : Guest) (free_cb block : ℕ) (t : Tables) (b : Bool) (r : Option (ℕ × Tables))
    → b ≡ false
    → Allocated g free_cb block t r
    → Allocated g free_cb block t (if b then none else r)
Allocated-else g free_cb block t true r e h = absurd (cc)
Allocated-else g free_cb block t false r e h = h

==_nonzero : (n : ℕ) → n ≢ 0 → (n == 0) ≡ false
==_nonzero n h = ground arith

nonzero : (n : ℕ) → (n == 0) ≡ false → n ≢ 0
nonzero n h = ground arith

-- On tables of the declared sizes, where `calloc` gives a block: `SSNEW` reserves a free slot for
-- it, which holds it until the interpreter fires the destructor of which it is told; that calls
-- `goperl_ssnew_free_cb` on the slot, and then all slots are as before. It croaks only if all slots
-- of one of the two tables are in use.
pub ssnew_alloc-Allocated :
    (g : Guest) (free_cb block : ℕ) (t : Tables)
    → length t.ssnew ≡ dtor_max
    → length t.dtors ≡ dtor_max
    → free_cb ≢ 0
    → block ≢ 0
    → Allocated g free_cb block t (ssnew_alloc g free_cb block t)
unfolding ssnew_alloc ssnew_free
ssnew_alloc-Allocated g free_cb block t size dsize named real =
    go (scan (ssnew_free t) t.ssnew_hint 0 dtor_max) refl
  where
    go :
        (r : Option ℕ)
        → scan (ssnew_free t) t.ssnew_hint 0 dtor_max ≡ r
        → Allocated g free_cb block t (elim r [
          | none ↦ none
          | some ix ↦
              let t1 = record t { ssnew_hint = ix + 1; ssnew = set t.ssnew ix block } in
              let saved = save_destructor_x g free_cb ix t1 in
              if block == 0 then none else elim saved [ none ↦ none | some t2 ↦ some (ix, t2) ]
        ])
    go none e =
        inl (λ i h. nonzero (get_or t.ssnew i 0) (scan-full (ssnew_free t) t.ssnew_hint i e h))
    go (some ix) e =
        let (free, below) = scan-some (ssnew_free t) t.ssnew_hint 0 dtor_max ix e in
        let null : get_or t.ssnew ix 0 ≡ 0 = (==_iff (get_or t.ssnew ix 0) 0).0 free in
        let t1 = record t { ssnew_hint = ix + 1; ssnew = set t.ssnew ix block } in
        let saved = save_destructor_x g free_cb ix t1 in
        Allocated-else g free_cb block t (block == 0)
          (elim saved [ none ↦ none | some t2 ↦ some (ix, t2) ]) (==_nonzero block real)
          (reserve g free_cb block ix t saved size real null below
            (save_destructor_x_lem g free_cb ix t1 dsize named)
            (save_destructor_x-SameBlocks g free_cb ix t1))
