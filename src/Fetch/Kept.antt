-- ===== src/Fetch/Kept.antt =====
-- A slot that was handed out keeps its token while fewer than 16 operations follow.
use mathlib.Core.Path.{subst}
use go_perl.Prelude.{
  ℕ, suc, ◌+◌, ◌%◌, ◌^◌, ◌<◌, ◌≤◌, ◌≡◌, ◌≢◌, refl, sym, ap, ◌∙◌, inl, inr, true, false, Option,
  none, some, List, [], ◌∷◌, ltb, ◌==◌, if◌then◌else◌, get_or, take, length, arith, Bool-cases,
  lt→ltb, length-set, get_or-set_other,
}
use go_perl.Bridge.{Guest}
use go_perl.Bridge.Op.{av_read, av_fetch, hv_fetch_klen, hv_store_klen}
use go_perl.Flush.{do_op}
use go_perl.Fetch.{
  xs_tmps, Slots, Fetched, null, slot, outside, tmp_slot, av_fetch_slot, undef_slot, hv_fetch,
  hv_store, Fetch, of_array, of_hash, into_hash, fetch, fetches, key_operand, key_length,
}

-- The frame has its 16 slots, and its cursor does not overflow in `n` more operations.
abbrev pub HasRoom : ℕ → Slots → Type 0
HasRoom n f = (length f.tmp ≡ xs_tmps) × (f.tmpidx + n ≤ 2 ^ 31)

-- The slot `k` has `tok`, and the next `d` slots are others.
abbrev Holds : ℕ → ℕ → ℕ → Slots → Type 0
Holds k tok d f = (get_or f.tmp k 0 ≡ tok) × ((j : ℕ) → j < d → (f.tmpidx + j) % xs_tmps ≢ k)

-- What an operation leaves: not `outside`, room for one operation less, and a slot held before is
-- held for one less; a new slot has its number below 16, and is held for 15.
abbrev Leaves : ℕ → Slots → Fetched → Type 0
Leaves n f (null f') = HasRoom n f' × ((k tok d : ℕ) → Holds k tok (suc d) f → Holds k tok d f')
Leaves n f (slot i f') =
    HasRoom n f'
    × ((k tok d : ℕ) → Holds k tok (suc d) f → Holds k tok d f')
    × ((i < xs_tmps) × Holds i (get_or f'.tmp i 0) 15 f')
Leaves n f outside = ⊥

tmp_slot-Leaves : (n tok : ℕ) (f : Slots) → HasRoom (suc n) f → Leaves n f (tmp_slot tok f)
unfolding tmp_slot
tmp_slot-Leaves n tok f room =
    let fits : ltb f.tmpidx (2 ^ 31) ≡ true = lt→ltb f.tmpidx (2 ^ 31) (omega arith) in
    rw fits (
      (length-set f.tmp (f.tmpidx % xs_tmps) tok ∙ room.0, omega arith),
      λ k t d held.
          let other : f.tmpidx % xs_tmps ≢ k = λ e. held.1 0 (omega arith) (omega arith) in
          (
            get_or-set_other f.tmp (f.tmpidx % xs_tmps) k tok 0 other ∙ held.0,
            λ j less e. held.1 (suc j) (omega arith) (omega arith),
          ),
      (omega arith, (refl, λ j less e. omega arith)),
    )

null-Leaves :
    (n : ℕ) (f f' : Slots)
    → HasRoom (suc n) f
    → f'.tmp ≡ f.tmp
    → f'.tmpidx ≡ f.tmpidx
    → Leaves n f (null f')
null-Leaves n f f' room same at = (
  (ap length same ∙ room.0, omega arith),
  λ k tok d held.
      (ap (λ tmp. get_or tmp k 0) same ∙ held.0, λ j less e. held.1 j (omega arith) (omega arith)),
)

-- The three operations end in a slot or a null pointer.
av_fetch_slot-Leaves :
    (g : Guest) (av i lval n : ℕ) (f : Slots)
    → HasRoom (suc n) f
    → Leaves n f (av_fetch_slot g av i lval f)
unfolding av_fetch_slot
av_fetch_slot-Leaves g av i lval n f room =
    let asked = do_op g (if lval == 0 then av_fetch else av_read) av i [] f.world in
    elim (Bool-cases (asked.0 == 0)) [
      | inl e ↦ rw e (null-Leaves n f (record f { world = asked.1 }) room refl refl)
      | inr e ↦ rw e (tmp_slot-Leaves n asked.0 (record f { world = asked.1 }) room)
    ]

hv_fetch-Leaves :
    (g : Guest) (hv : ℕ) (key : List ℕ) (klen lval n : ℕ) (f : Slots)
    → HasRoom (suc n) f
    → Leaves n f (hv_fetch g hv key klen lval f)
unfolding hv_fetch undef_slot
hv_fetch-Leaves g hv key klen lval n f room =
    let asked =
      do_op g hv_fetch_klen hv (key_operand klen (if lval == 0 then 0 else 1))
        (take (key_length klen) key) f.world in
    elim (Bool-cases (asked.0 == 0)) [
      | inl e ↦ elim (Bool-cases (lval == 0)) [
        | inl h ↦ rw (e, h) (null-Leaves n f (record f { world = asked.1 }) room refl refl)
        | inr h ↦ rw (e, h) (tmp_slot-Leaves n _ (record f { world = _ }) room)
      ]
      | inr e ↦ rw e (tmp_slot-Leaves n asked.0 (record f { world = asked.1 }) room)
    ]

hv_store-Leaves :
    (g : Guest) (hv : ℕ) (key : List ℕ) (klen sv n : ℕ) (f : Slots)
    → HasRoom (suc n) f
    → Leaves n f (hv_store g hv key klen sv f)
unfolding hv_store
hv_store-Leaves g hv key klen sv n f room =
    let asked =
      do_op g hv_store_klen hv (key_operand klen (sv % 2 ^ 32)) (take (key_length klen) key)
        f.world in
    elim (Bool-cases (asked.0 == 0)) [
      | inl e ↦ rw e (null-Leaves n f (record f { world = asked.1 }) room refl refl)
      | inr e ↦ rw e (tmp_slot-Leaves n asked.0 (record f { world = asked.1 }) room)
    ]

fetch-Leaves :
    (g : Guest) (op : Fetch) (n : ℕ) (f : Slots) → HasRoom (suc n) f → Leaves n f (fetch g op f)
unfolding fetch
fetch-Leaves g (of_array av i lval) n f room = av_fetch_slot-Leaves g av i lval n f room
fetch-Leaves g (of_hash hv key klen lval) n f room = hv_fetch-Leaves g hv key klen lval n f room
fetch-Leaves g (into_hash hv key klen sv) n f room = hv_store-Leaves g hv key klen sv n f room

-- The rest of a sequence behind the result of its first operation.
abbrev resume : Guest → List Fetch → Fetched → Option Slots
resume g ops (null f) = fetches g ops f
resume g ops (slot k f) = fetches g ops f
resume g ops outside = none

fetches-cons :
    (g : Guest) (op : Fetch) (ops : List Fetch) (f : Slots)
    → fetches g (op ∷ ops) f ≡ resume g ops (fetch g op f)
unfolding fetches
fetches-cons g op ops f =
    elim (fetch g op f)
      as (λ r.
        elim r [ null f' ↦ fetches g ops f' | slot k f' ↦ fetches g ops f' | outside ↦ none ]
        ≡ resume g ops r) [ null f' ↦ refl | slot k f' ↦ refl | outside ↦ refl ]

-- The operations end, and keep what is held for as long as they are.
abbrev Keeps : ℕ → Slots → Option Slots → Type 0
Keeps n f none = ⊥
Keeps n f (some f') = (k tok : ℕ) → Holds k tok n f → (get_or f'.tmp k 0 ≡ tok)

Keeps-suc :
    (n : ℕ) (f f' : Slots) (r : Option Slots)
    → ((k tok d : ℕ) → Holds k tok (suc d) f → Holds k tok d f')
    → Keeps n f' r
    → Keeps (suc n) f r
Keeps-suc n f f' none keep h = h
Keeps-suc n f f' (some f'') keep h = λ k tok held. h k tok (keep k tok n held)

resume-Keeps :
    (g : Guest) (ops : List Fetch) (f : Slots) (r : Fetched)
    → ((f' : Slots) → HasRoom (length ops) f' → Keeps (length ops) f' (fetches g ops f'))
    → Leaves (length ops) f r
    → Keeps (suc (length ops)) f (resume g ops r)
resume-Keeps g ops f (null f') ih h = Keeps-suc (length ops) f f' (fetches g ops f') h.1 (ih f' h.0)
resume-Keeps g ops f (slot k f') ih h =
    Keeps-suc (length ops) f f' (fetches g ops f') h.1 (ih f' h.0)
resume-Keeps g ops f outside ih h = h

fetches-Keeps :
    (g : Guest) (ops : List Fetch) (f : Slots)
    → HasRoom (length ops) f
    → Keeps (length ops) f (fetches g ops f)
unfolding fetches
fetches-Keeps g [] f room = λ k tok held. held.0
fetches-Keeps g (op ∷ ops) f room =
    subst (Keeps (suc (length ops)) f) (sym (fetches-cons g op ops f)) (
      resume-Keeps g ops f (fetch g op f) (fetches-Keeps g ops)
        (fetch-Leaves g op (length ops) f room))

Keeps-some :
    (n k tok : ℕ) (f : Slots) (r : Option Slots)
    → Holds k tok n f
    → Keeps n f r
    → (f' : Slots) × (r ≡ some f') × (get_or f'.tmp k 0 ≡ tok)
Keeps-some n k tok f none held h = absurd h
Keeps-some n k tok f (some f') held h = (f', refl, h k tok held)

-- On a frame with its 16 slots, whose cursor has room for the operations below 2^31: if an
-- operation hands out a slot, its number is below 16, and fewer than 16 operations after it, of any
-- kind and on any arrays and hashes, all return and leave in the slot what it held when it was
-- handed out.
pub fetches_lem :
    (g : Guest) (op : Fetch) (ops : List Fetch) (f : Slots) (k : ℕ) (f' : Slots)
    → HasRoom (suc (length ops)) f
    → length ops < xs_tmps
    → fetch g op f ≡ slot k f'
    → (f'' : Slots) × (fetches g ops f' ≡ some f'')
      × (k < xs_tmps)
      × (get_or f''.tmp k 0 ≡ get_or f'.tmp k 0)
fetches_lem g op ops f k f' room few is =
    let left = subst (Leaves (length ops) f) is (fetch-Leaves g op (length ops) f room) in
    let (small, holds) = left.2 in
    let held : Holds k (get_or f'.tmp k 0) (length ops) f' =
      (refl, λ j less. holds.1 j (omega arith)) in
    let (f'', runs, same) =
      Keeps-some (length ops) k (get_or f'.tmp k 0) f' (fetches g ops f') held
        (fetches-Keeps g ops f' left.0) in
    (f'', runs, small, same)

-- An lvalue fetch from a hash gives a slot, where the interpreter has no value too; the frame has
-- its slots, and room for the cursor.
pub hv_fetch_lvalue_lem :
    (g : Guest) (hv : ℕ) (key : List ℕ) (klen lval : ℕ) (f : Slots)
    → HasRoom 1 f
    → lval ≢ 0
    → (k : ℕ) × (f' : Slots) × (hv_fetch g hv key klen lval f ≡ slot k f') × (k < xs_tmps)
unfolding hv_fetch undef_slot tmp_slot
hv_fetch_lvalue_lem g hv key klen lval f room nz =
    let fits : ltb f.tmpidx (2 ^ 31) ≡ true = lt→ltb f.tmpidx (2 ^ 31) (omega arith) in
    let other : (lval == 0) ≡ false = ground arith in
    let asked =
      do_op g hv_fetch_klen hv (key_operand klen (if lval == 0 then 0 else 1))
        (take (key_length klen) key) f.world in
    elim (Bool-cases (asked.0 == 0)) [
      | inl e ↦ rw (e, other, fits) (f.tmpidx % xs_tmps, _, refl, omega arith)
      | inr e ↦ rw (e, other, fits) (f.tmpidx % xs_tmps, _, refl, omega arith)
    ]
