-- ===== src/Threads/Examples.antt =====
-- Two threads with neighbouring ids claim their slots at once.
use go_perl.Prelude.{zero, suc, ◌<◌, ap, ◌++◌, ℕ, ◌≡◌, ◌≢◌, [], ◌∷◌, refl, List, All, arith}
use go_perl.Threads.{tframe_slots, aborted, idle, holding, run, started}
use go_perl.Threads.WaitFree.{steps_of, Returned, run-returns}
use go_perl.Threads.Slots.{IsThread, run_lem}

-- The ids 16 and 8208 start at the same slot; both see it free, and one loses the race.
abbrev race : List ℕ
race = 16 ∷ 8208 ∷ 16 ∷ 8208 ∷ 16 ∷ 8208 ∷ 16 ∷ 8208 ∷ 8208 ∷ 8208 ∷ 8208 ∷ 8208 ∷ []

race-IsThread : All IsThread race
race-IsThread = (
  omega arith,
  (
    omega arith,
    (
      omega arith,
      (
        omega arith,
        (
          omega arith,
          (
            omega arith,
            (
              omega arith,
              (omega arith, (omega arith, (omega arith, (omega arith, (omega arith, tt))))),
            ),
          ),
        ),
      ),
    ),
  ),
)

winner : (run race started).phase 16 ≡ holding 1
unfolding run started
winner = refl

loser : (run race started).phase 8208 ≡ holding 2
unfolding run started
loser = refl

run_lem_example :
    let s = run race started in
    ((t k : ℕ) → t ≢ 0 → s.phase t ≡ holding k → s.tids k ≡ t)
    × ((i j : ℕ) → s.tids i ≢ 0 → s.tids i ≡ s.tids j → i ≡ j)
    × ((t k : ℕ) → t ≢ 0 → s.phase t ≡ aborted → k < tframe_slots → (s.tids k ≢ 0) × (s.tids k ≢ t))
run_lem_example = run_lem race race-IsThread

-- Thread 16 alone, often enough.
alone : ℕ → List ℕ
alone zero = []
alone (suc n) = 16 ∷ alone n

steps_of-alone : (n : ℕ) → steps_of 16 (alone n) ≡ n
unfolding steps_of alone
steps_of-alone zero = refl
steps_of-alone (suc n) = ap suc (steps_of-alone n)

idle_at_start : started.phase 16 ≡ idle
unfolding started
idle_at_start = refl

run-returns_example :
    (before : List ℕ) × (after : List ℕ) × (alone 2049 ≡ before ++ after)
    × Returned ((run before started).phase 16)
run-returns_example =
    run-returns 16 (alone 2049) started idle_at_start
      (let enough = steps_of-alone 2049 in omega arith)
