-- ===== src/Threads/WaitFree.antt =====
-- A thread finds its slot in a bounded number of its own steps, whatever the others do.
use mathlib.Core.Path.{subst}
use go_perl.Prelude.{
  ℕ, zero, suc, ◌+◌, ◌*◌, ◌<◌, ◌≤◌, ◌≡◌, ◌≢◌, ◌⊎◌, inl, inr, refl, sym, ap, List, [], ◌∷◌, ◌++◌,
  ◌==◌, ==_iff, if◌then◌else◌, arith, Bool-cases,
}
use go_perl.Threads.{
  tframe_slots, Phase, idle, first, second, claiming, third, holding, aborted, Threads, next_round,
  move, step, run, looks_at,
}
use go_perl.Threads.Knowledge.{put_self, put_other}

-- The steps of `tid` in a schedule.
unfoldable pub steps_of : ℕ → List ℕ → ℕ
steps_of tid [] = 0
steps_of tid (u ∷ schedule) =
    if tid == u then suc (steps_of tid schedule) else steps_of tid schedule

-- The call is over.
pub Returned : Phase → Type 0
Returned idle = ⊥
Returned (first i) = ⊥
Returned (second i) = ⊥
Returned (claiming i) = ⊥
Returned (third i) = ⊥
Returned (holding k) = Unit
Returned aborted = Unit

-- At most `n` steps are left of the call.
Left : Phase → ℕ → Type 0
Left idle n = 2048 < n
Left (first i) n = (i < 512) × (2048 ≤ n + 4 * i)
Left (second i) n = (i < 512) × (2047 ≤ n + 4 * i)
Left (claiming i) n = (i < 512) × (2046 ≤ n + 4 * i)
Left (third i) n = (i < 512) × (2045 ≤ n + 4 * i)
Left (holding k) n = Unit
Left aborted n = Unit

next_round-Left : (i n : ℕ) → i < 512 → 2044 ≤ n + 4 * i → Left (next_round i) n
unfolding Left next_round
next_round-Left i n low left = elim (Bool-cases (suc i == tframe_slots)) [
  | inl e ↦ rw e tt
  | inr e ↦ rw e (let other : suc i ≢ 512 = ground arith in (ground arith, ground arith))
]

move-Left : (tid v : ℕ) (p : Phase) (n : ℕ) → Left p (suc n) → Returned p ⊎ Left (move tid v p) n
unfolding Left Returned move
move-Left tid v idle n h = inr (omega arith, omega arith)
move-Left tid v (first i) n h = elim (Bool-cases (v == tid)) [
  | inl e ↦ rw e (inr tt)
  | inr e ↦ rw e (inr (h.0, ground arith))
]
move-Left tid v (second i) n h = elim (Bool-cases (v == 0)) [
  | inl e ↦ rw e (inr (h.0, ground arith))
  | inr e ↦ rw e (inr (next_round-Left i n h.0 (ground arith)))
]
move-Left tid v (claiming i) n h = elim (Bool-cases (v == 0)) [
  | inl e ↦ rw e (inr tt)
  | inr e ↦ rw e (inr (h.0, ground arith))
]
move-Left tid v (third i) n h = elim (Bool-cases (v == tid)) [
  | inl e ↦ rw e (inr tt)
  | inr e ↦ rw e (inr (next_round-Left i n h.0 (ground arith)))
]
move-Left tid v (holding k) n h = inl tt
move-Left tid v aborted n h = inl tt

-- With no step left the call is over.
Left-Returned : (p : Phase) → Left p 0 → Returned p
unfolding Left Returned
Left-Returned idle h = absurd (omega arith)
Left-Returned (first i) h = absurd (let low = h.0 in let left = h.1 in omega arith)
Left-Returned (second i) h = absurd (let low = h.0 in let left = h.1 in omega arith)
Left-Returned (claiming i) h = absurd (let low = h.0 in let left = h.1 in omega arith)
Left-Returned (third i) h = absurd (let low = h.0 in let left = h.1 in omega arith)
Left-Returned (holding k) h = tt
Left-Returned aborted h = tt

-- A step of another thread leaves the phase.
step-phase_other : (tid u : ℕ) (s : Threads) → tid ≢ u → (step u s).phase tid ≡ s.phase tid
unfolding step
step-phase_other tid u s other =
    let p = s.phase u in put_other u (move u (s.tids (looks_at u p)) p) s.phase tid other

step-phase :
    (tid : ℕ) (s : Threads)
    → (step tid s).phase tid ≡ move tid (s.tids (looks_at tid (s.phase tid))) (s.phase tid)
unfolding step
step-phase tid s =
    let p = s.phase tid in put_self tid (move tid (s.tids (looks_at tid p)) p) s.phase

-- Somewhere in the schedule the call of `tid` is over.
abbrev Returns : ℕ → List ℕ → Threads → Type 0
Returns tid schedule s =
    (before : List ℕ) × (after : List ℕ) × (schedule ≡ before ++ after)
    × Returned ((run before s).phase tid)

return_at_once :
    (tid : ℕ) (schedule : List ℕ) (s : Threads) → Returned (s.phase tid) → Returns tid schedule s
unfolding run
return_at_once tid schedule s h = ([], schedule, refl, h)

return_later :
    (tid u : ℕ) (schedule : List ℕ) (s : Threads)
    → Returns tid schedule (step u s)
    → Returns tid (u ∷ schedule) s
unfolding run
return_later tid u schedule s (before, after, split, h) =
    (u ∷ before, after, ap (λ l. u ∷ l) split, h)

Left-Returns :
    (tid : ℕ) (schedule : List ℕ) (s : Threads) (n : ℕ)
    → Left (s.phase tid) n
    → n ≤ steps_of tid schedule
    → Returns tid schedule s
unfolding steps_of
Left-Returns tid schedule s zero left enough =
    return_at_once tid schedule s (Left-Returned (s.phase tid) left)
Left-Returns tid [] s (suc n) left enough = absurd (omega arith)
Left-Returns tid (u ∷ schedule) s (suc n) left enough = elim (Bool-cases (tid == u)) [
  | inl e ↦
      let at : tid ≡ u = (==_iff tid u).0 e in
      let v = s.tids (looks_at tid (s.phase tid)) in
      let less : n ≤ steps_of tid schedule = ground arith in
      elim (move-Left tid v (s.phase tid) n left) [
        | inl done ↦ return_at_once tid (u ∷ schedule) s done
        | inr left' ↦
            let moved = subst (λ p. Left p n) (sym (step-phase tid s)) left' in
            return_later tid u schedule s (
              subst (λ t. Returns tid schedule (step t s)) at
                (Left-Returns tid schedule (step tid s) n moved less))
      ]
  | inr e ↦
      let kept = subst (λ p. Left p (suc n)) (sym (step-phase_other tid u s (ground arith))) left in
      let same : suc n ≤ steps_of tid schedule = ground arith in
      return_later tid u schedule s (Left-Returns tid schedule (step u s) (suc n) kept same)
]

-- From any state of the table, and whatever the other threads of the schedule do: a thread that is
-- outside returns, with a slot or in `abort`, within 2049 steps of its own.
pub run-returns :
    (tid : ℕ) (schedule : List ℕ) (s : Threads)
    → s.phase tid ≡ idle
    → 2048 < steps_of tid schedule
    → (before : List ℕ) × (after : List ℕ) × (schedule ≡ before ++ after)
      × Returned ((run before s).phase tid)
unfolding Left
run-returns tid schedule s out enough =
    Left-Returns tid schedule s 2049 (subst (λ p. Left p 2049) (sym out) (omega arith))
      (ground arith)
