-- ===== src/Save/Activation/Entry.antt =====
-- What entering an activation does, as saves and writes, and what a body leaves of it.
use go_perl.Prelude.{
  ℕ, ◌+◌, ◌*◌, ◌/◌, ◌^◌, ◌<◌, ◌≡◌, ◌≢◌, refl, ap, sym, ◌∙◌, true, false, Option, none, some, List,
  [], ◌∷◌, ◌==◌, if◌then◌else◌, length, arith, All,
}
use mathlib.Core.Path.{subst, ap₂}
use go_perl.Save.{
  Memory, store, load_ptr, store_ptr, Host, hostsave_unwind_to, Action, save_ptr, save_i32, write,
  act, run, hostsave_ptr, hostsave_i32,
}
use go_perl.Save.Undo.{IsMemory, Guarded, member}
use go_perl.Save.Restore.{hostsave_unwind_to-run, run_cons, pushed}
use go_perl.Save.Activation.{jb_at, base_at, prev_at, Activation, arm, xs_enter}

Guarded-more :
    (ws vs : List ℕ) (actions : List Action)
    → ((x : ℕ) → member x ws ≡ true → member x vs ≡ true)
    → Guarded ws actions
    → Guarded vs actions
Guarded-more ws vs [] sub g = tt
Guarded-more ws vs (save_ptr a ∷ rest) sub g =
    Guarded-more (a ∷ (a + 1) ∷ ws) (a ∷ (a + 1) ∷ vs) rest (λ x h. ground (arith, sub x)) g
Guarded-more ws vs (save_i32 a ∷ rest) sub g =
    Guarded-more (a ∷ ws) (a ∷ vs) rest (λ x h. ground (arith, sub x)) g
Guarded-more ws vs (write a v ∷ rest) sub g = (sub a g.0, Guarded-more ws vs rest sub g.1)

-- The entry protocol as saves and writes.
abbrev arm_then : ℕ → ℕ → ℕ → ℕ → List Action → List Action
arm_then frame jb base prev rest =
    write (prev_at frame) prev
    ∷ write (prev_at frame + 1) (prev / 2 ^ 32)
    ∷ write (base_at frame) base
    ∷ write (jb_at frame) jb
    ∷ write (jb_at frame + 1) (jb / 2 ^ 32)
    ∷ rest

abbrev entry_then : ℕ → ℕ → ℕ → ℕ → List Action → List Action
entry_then frame jb base prev rest =
    save_i32 (base_at frame)
    ∷ save_ptr (prev_at frame)
    ∷ save_ptr (jb_at frame)
    ∷ arm_then frame jb base prev rest

abbrev prev_of : ℕ → Activation → ℕ
prev_of frame a = if frame == a.cur_frame then frame else a.cur_frame

prev_of-eq : (frame : ℕ) (a : Activation) → prev_of frame a ≡ a.cur_frame
prev_of-eq frame a = ground arith

-- The state that an entry leads to.
pub record IsEntered (frame jb : ℕ) (a a1 : Activation) : Type 0 where
  pub ran :
      (rest : List Action)
      → run (entry_then frame jb (length a.host.saves) (prev_of frame a) rest) a.host
        ≡ run rest a1.host
  pub cur : a1.cur_frame ≡ frame
  pub depth : a1.xs_depth ≡ a.xs_depth + 1
  pub armed : (m : Memory) × (a1.host.memory ≡ arm frame jb (length a.host.saves) a.cur_frame m)
  pub room : length a.host.saves < 2 ^ 32

bind_some :
    {A B : Type 0} (r : Option A) (k : A → Option B) {b : B}
    → elim r [ none ↦ none | some x ↦ k x ] ≡ some b
    → (x : A) × (r ≡ some x) × (k x ≡ some b)
bind_some none k e = cc
bind_some (some x) k e = (x, refl, e)

has_room : (loc : ℕ) (h h1 : Host) → hostsave_i32 loc h ≡ some h1 → length h.saves < 2 ^ 32
unfolding hostsave_i32
has_room loc h h1 e = ground arith

run-step :
    (b : Action) (rest : List Action) (h : Host) {h1 : Host}
    → act b h ≡ some h1
    → run (b ∷ rest) h ≡ run rest h1
unfolding run
run-step b rest h e = ap (λ (r : Option Host). elim r [ none ↦ none | some k ↦ run rest k ]) e

entry-run :
    (frame jb base prev : ℕ) (rest : List Action) (h h1 h2 h3 : Host)
    → hostsave_i32 (base_at frame) h ≡ some h1
    → hostsave_ptr (prev_at frame) h1 ≡ some h2
    → hostsave_ptr (jb_at frame) h2 ≡ some h3
    → run (entry_then frame jb base (if frame == prev then frame else prev) rest) h
      ≡ run rest (record h3 { memory = arm frame jb base prev h3.memory })
unfolding arm store_ptr run act
entry-run frame jb base prev rest h h1 h2 h3 e1 e2 e3 =
    let writes = arm_then frame jb base (if frame == prev then frame else prev) rest in
    run-step (save_i32 (base_at frame)) (save_ptr (prev_at frame) ∷ save_ptr (jb_at frame) ∷ writes)
      h e1
    ∙ run-step (save_ptr (prev_at frame)) (save_ptr (jb_at frame) ∷ writes) h1 e2
    ∙ run-step (save_ptr (jb_at frame)) writes h2 e3

pub xs_enter-IsEntered :
    (frame jb : ℕ) (a a1 : Activation) → xs_enter frame jb a ≡ some a1 → IsEntered frame jb a a1
unfolding xs_enter
xs_enter-IsEntered frame jb a a1 e =
    let (h1, e1, k1) = bind_some (hostsave_i32 (base_at frame) a.host) _ e in
    let (h2, e2, k2) = bind_some (hostsave_ptr (prev_at frame) h1) _ k1 in
    let (h3, e3, k3) = bind_some (hostsave_ptr (jb_at frame) h2) _ k2 in
    subst (IsEntered frame jb a) (pushed false _ a1 k3) (record {
      ran = λ rest.
          entry-run frame jb (length a.host.saves) a.cur_frame rest a.host h1 h2 h3 e1 e2 e3;
      cur = refl;
      depth = refl;
      armed = (h3.memory, refl);
      room = has_room (base_at frame) a.host h1 e1;
    })

arm-base :
    (frame jb base prev : ℕ) (m : Memory)
    → base < 2 ^ 32
    → arm frame jb base prev m (base_at frame) ≡ base
unfolding arm store_ptr store
arm-base frame jb base prev m small = ground arith

arm-prev :
    (frame jb base prev : ℕ) (m : Memory)
    → prev < 2 ^ 64
    → load_ptr (arm frame jb base prev m) (prev_at frame) ≡ prev
unfolding arm store_ptr store
arm-prev frame jb base prev m small = ground arith

-- The action does not write to the word.
abbrev pub Spares : ℕ → Action → Type 0
Spares x (save_ptr a) = Unit
Spares x (save_i32 a) = Unit
Spares x (write a v) = a ≢ x

act-spared :
    (y : ℕ) (b : Action) (k k1 : Host) → Spares y b → act b k ≡ some k1 → k1.memory y ≡ k.memory y
unfolding act hostsave_ptr hostsave_i32 store
act-spared y (save_ptr c) k k1 sp f = ap (λ z. z.memory y) (sym (pushed _ _ k1 f))
act-spared y (save_i32 c) k k1 sp f = ap (λ z. z.memory y) (sym (pushed _ _ k1 f))
act-spared y (write c v) k k1 sp f =
    ap (λ z. z.memory y) (sym (pushed false (record k { memory = store k.memory c v }) k1 f))
    ∙ ground arith

pub run-spared :
    (x : ℕ) (actions : List Action) (h h' : Host)
    → All (Spares x) actions
    → run actions h ≡ some h'
    → h'.memory x ≡ h.memory x
run-spared x [] h h' sp e = unfold run in ap (λ k. k.memory x) (sym (pushed false h h' e))
run-spared x (a ∷ rest) h h' sp e =
    let (h1, e1, er) = run_cons a rest h h' e in
    run-spared x rest h1 h' sp.1 er ∙ act-spared x a h h1 sp.0 e1

module _ (frame jb : ℕ) (a a1 : Activation) (actions : List Action) (h : Host)
    (words : IsMemory a.host.memory) (entered : xs_enter frame jb a ≡ some a1)
    (ran : run actions a1.host ≡ some h) (guard : Guarded [] actions) where
  -- Unwinding to the depth at the entry undoes the body and the entry.
  pub unwound : hostsave_unwind_to (length a.host.saves) h ≡ a.host
  unwound =
      let g = xs_enter-IsEntered frame jb a a1 entered in
      hostsave_unwind_to-run (entry_then frame jb (length a.host.saves) (prev_of frame a) actions)
        a.host h words
        (
          ground arith,
          (
            ground arith,
            (
              ground arith,
              (ground arith, (ground arith, Guarded-more [] _ actions (λ x n. cc) guard)),
            ),
          ),
        )
        (g.ran actions ∙ ran)

  -- The frame's fields at the leave, when the body spares them.
  pub base_kept :
      All (Spares (base_at frame)) actions → h.memory (base_at frame) ≡ length a.host.saves
  base_kept sp =
      let g = xs_enter-IsEntered frame jb a a1 entered in
      let (m, e) = g.armed in
      run-spared (base_at frame) actions a1.host h sp ran
      ∙ ap (λ k. k (base_at frame)) e
      ∙ arm-base frame jb (length a.host.saves) a.cur_frame m g.room

  pub prev_kept :
      a.cur_frame < 2 ^ 64
      → All (Spares (prev_at frame)) actions
      → All (Spares (prev_at frame + 1)) actions
      → load_ptr h.memory (prev_at frame) ≡ a.cur_frame
  prev_kept small lo hi =
      let g = xs_enter-IsEntered frame jb a a1 entered in
      let (m, e) = g.armed in
      ap₂ (λ x y. x + y * 2 ^ 32) (run-spared (prev_at frame) actions a1.host h lo ran)
        (run-spared (prev_at frame + 1) actions a1.host h hi ran)
      ∙ ap (λ k. load_ptr k (prev_at frame)) e
      ∙ arm-prev frame jb (length a.host.saves) a.cur_frame m small
