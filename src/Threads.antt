-- ===== src/Threads.antt =====
-- The table of the current frames (xs/sdk/include/perl.h, `goperl_curframe_slot`): threads that run
-- at once find or claim the slot of their own id. Each read of a slot's id and each
-- compare-and-swap is one step; a schedule says which thread makes the next one. The id of a
-- thread is not 0.
mod Knowledge
pub mod Slots
pub mod WaitFree
pub mod Examples
use go_perl.Prelude.{ℕ, zero, suc, ◌+◌, ◌/◌, ◌%◌, ◌^◌, List, [], ◌∷◌, ◌==◌, if◌then◌else◌}

-- `GOPERL_TFRAME_SLOTS`
abbrev pub tframe_slots : ℕ
tframe_slots = 512

-- `(h + i) % GOPERL_TFRAME_SLOTS`, for the `h` of the thread.
pub slot_at : ℕ → ℕ → ℕ
slot_at tid i = (tid / 2 ^ 4 % tframe_slots + i) % tframe_slots

-- Where a thread is: outside; before the first, the second or the last comparison in round `i`, or
-- before its compare-and-swap; returned with a slot; in `abort`.
pub data Phase : Type 0 where
  idle : Phase
  first second claiming third : ℕ → Phase
  holding : ℕ → Phase
  aborted : Phase

-- The ids of the slots, 0 for a free one, and the threads by their ids.
pub record Threads : Type 0 where
  pub tids : ℕ → ℕ
  pub phase : ℕ → Phase

-- A store.
pub put {ℓ} : {A : Type ℓ} → ℕ → A → (ℕ → A) → ℕ → A
put k v f x = if x == k then v else f x

-- The next round, or the end of the loop.
pub next_round : ℕ → Phase
next_round i = if suc i == tframe_slots then aborted else first (suc i)

-- What a thread does next, given the id in its slot: its phase, and whether it stores its id.
pub move : ℕ → ℕ → Phase → Phase
unfolding slot_at next_round
move tid v idle = first 0
move tid v (first i) = if v == tid then holding (slot_at tid i) else second i
move tid v (second i) = if v == 0 then claiming i else next_round i
move tid v (claiming i) = if v == 0 then holding (slot_at tid i) else third i
move tid v (third i) = if v == tid then holding (slot_at tid i) else next_round i
move tid v (holding k) = idle
move tid v aborted = aborted

-- The slot that a thread looks at.
pub looks_at : ℕ → Phase → ℕ
unfolding slot_at
looks_at tid idle = 0
looks_at tid (first i) = slot_at tid i
looks_at tid (second i) = slot_at tid i
looks_at tid (claiming i) = slot_at tid i
looks_at tid (third i) = slot_at tid i
looks_at tid (holding k) = k
looks_at tid aborted = 0

-- The store of the compare-and-swap.
pub swap : ℕ → ℕ → Phase → (ℕ → ℕ) → ℕ → ℕ
unfolding slot_at put
swap tid v idle tids = tids
swap tid v (first i) tids = tids
swap tid v (second i) tids = tids
swap tid v (claiming i) tids = if v == 0 then put (slot_at tid i) tid tids else tids
swap tid v (third i) tids = tids
swap tid v (holding k) tids = tids
swap tid v aborted tids = tids

-- One step of a thread.
pub step : ℕ → Threads → Threads
unfolding move looks_at swap put
step tid s =
    let p = s.phase tid in
    let v = s.tids (looks_at tid p) in
    record { tids = swap tid v p s.tids; phase = put tid (move tid v p) s.phase }

-- The steps of a schedule.
pub run : List ℕ → Threads → Threads
unfolding step
run [] s = s
run (tid ∷ schedule) s = run schedule (step tid s)

-- The table of a new process, and no thread in it.
pub started : Threads
started = record { tids = λ k. 0; phase = λ tid. idle }
