-- ===== src/Threads/Slots.antt =====
-- Under every schedule each thread has a slot of its own.
use mathlib.Core.Path.{subst}
use go_perl.Prelude.{
  ℕ, ◌<◌, ◌+◌, ◌-◌, ◌/◌, ◌%◌, ◌^◌, ◌≡◌, ◌≢◌, inl, inr, refl, sym, ap, ◌∙◌, false, List, [], ◌∷◌,
  ◌==◌, ==_iff, All, arith, Bool-cases, ltb,
}
use go_perl.Threads.Knowledge.{
  Seen, Placed, Knows, put_self, put_other, move-Knows, swap-Knows, swap-Placed,
}
use go_perl.Threads.{
  tframe_slots, slot_at, holding, aborted, Threads, put, move, looks_at, swap, step, run, started,
}

record Sound (s : Threads) : Type 0 where
  placed : Placed s.tids
  knows : (t : ℕ) → t ≢ 0 → Knows s.tids t (s.phase t)

step-Sound : (u : ℕ) (s : Threads) → u ≢ 0 → Sound s → Sound (step u s)
unfolding step
step-Sound u s nz sound =
    let p = s.phase u in
    let v = s.tids (looks_at u p) in
    let tids = swap u v p s.tids in
    record {
      placed = swap-Placed s.tids u p sound.placed (sound.knows u nz);
      knows = λ t nz'. elim (Bool-cases (t == u)) [
        | inl e ↦
            let at : t ≡ u = (==_iff t u).0 e in
            let new : put u (move u v p) s.phase t ≡ move u v p =
              ap (put u (move u v p) s.phase) at ∙ put_self u (move u v p) s.phase in
            subst (Knows tids t) (sym new) (
              subst (λ x. Knows tids x (move u v p)) (sym at)
                (move-Knows s.tids u p nz (sound.knows u nz)))
        | inr e ↦
            let old : put u (move u v p) s.phase t ≡ s.phase t =
              put_other u (move u v p) s.phase t (ground arith) in
            subst (Knows tids t) (sym old)
              (swap-Knows s.tids u t p (s.phase t) nz' (ground arith) (sound.knows t nz'))
      ];
    }

abbrev pub IsThread : ℕ → Type 0
IsThread t = t ≢ 0

run-Sound :
    (schedule : List ℕ) (s : Threads) → All IsThread schedule → Sound s → Sound (run schedule s)
unfolding run
run-Sound [] s h sound = sound
run-Sound (u ∷ schedule) s h sound = run-Sound schedule (step u s) h.1 (step-Sound u s h.0 sound)

started-Sound : Sound started
unfolding started Knows
started-Sound = record { placed = λ j full. absurd (full refl); knows = λ t nz. tt }

-- The thread of slot `i` did not pass the slot `j`, which has the same id.
not_passed : (f : ℕ → ℕ) (i j o : ℕ) → f i ≡ f j → j ≡ slot_at (f j) o → f (slot_at (f i) o) ≡ f i
not_passed f i j o same at = ap (λ t. f (slot_at t o)) same ∙ ap f (sym at) ∙ sym same

rounds_ordered :
    (f : ℕ → ℕ) (i j o o' : ℕ)
    → f i ≡ f j
    → Seen f (f i) o
    → j ≡ slot_at (f j) o'
    → ltb o' o ≡ false
rounds_ordered f i j o o' same seen at = elim (Bool-cases (ltb o' o)) [
  | inl e ↦ absurd ((seen o' (ground arith)).1 (not_passed f i j o' same at))
  | inr e ↦ e
]

-- An id stands in one slot at most.
Placed_unique : (f : ℕ → ℕ) (i j : ℕ) → Placed f → f i ≢ 0 → f i ≡ f j → i ≡ j
Placed_unique f i j placed full same =
    let (o, at, seen) = placed i full in
    let (o', at', seen') = placed j (λ z. full (same ∙ z)) in
    let below = rounds_ordered f i j o o' same seen at' in
    let above = rounds_ordered f j i o' o (sym same) seen' at in
    let round : o ≡ o' = ground arith in
    at ∙ ap (λ t. slot_at t o) same ∙ ap (slot_at (f j)) round ∙ sym at'

-- The round in which a thread looks at slot `k`.
slot_at_hits : (tid k : ℕ) → k < tframe_slots → (o : ℕ) × (o < tframe_slots) × (slot_at tid o ≡ k)
unfolding slot_at
slot_at_hits tid k low =
    let h = tid / 2 ^ 4 % tframe_slots in
    ((k + (tframe_slots - h)) % tframe_slots, omega arith, omega arith)

all_taken :
    (f : ℕ → ℕ) (t : ℕ) → Seen f t tframe_slots → (k : ℕ) → k < tframe_slots → (f k ≢ 0) × (f k ≢ t)
all_taken f t seen k low =
    let (o, less, at) = slot_at_hits t k low in subst (λ x. (f x ≢ 0) × (f x ≢ t)) at (seen o less)

-- Under every schedule of threads, from the empty table on: a thread that has returned holds a slot
-- with its own id, so no two threads hold the same; an id stands in one slot at most, so a thread
-- gets the same slot each time; and a thread is in `abort` only if each of the 512 slots has the id
-- of another thread.
pub run_lem :
    (schedule : List ℕ)
    → All IsThread schedule
    → let s = run schedule started in
      ((t k : ℕ) → t ≢ 0 → s.phase t ≡ holding k → s.tids k ≡ t)
      × ((i j : ℕ) → s.tids i ≢ 0 → s.tids i ≡ s.tids j → i ≡ j)
      × ((t k : ℕ)
          → t ≢ 0
          → s.phase t ≡ aborted
          → k < tframe_slots
          → (s.tids k ≢ 0) × (s.tids k ≢ t))
unfolding Knows
run_lem schedule h =
    let s = run schedule started in
    let sound = run-Sound schedule started h started-Sound in
    (
      λ t k nz is. subst (Knows s.tids t) is (sound.knows t nz),
      λ i j. Placed_unique s.tids i j sound.placed,
      λ t k nz is. all_taken s.tids t (subst (Knows s.tids t) is (sound.knows t nz)) k,
    )
