-- ===== src/Save/Activation/Hooks/Marks.antt =====
-- What a croak writes to its frame does not meet the saves and writes of a module that leaves
-- `failed` and `err` alone.
use go_perl.Prelude.{
  ℕ, ◌+◌, ◌*◌, ◌^◌, ◌≡◌, refl, sym, ap, ◌∙◌, inl, inr, Bool, true, false, Option, none, some, List,
  [], ◌∷◌, leb, ◌==◌, if◌then◌else◌, length, All, arith, Bool-cases,
}
use std.Path.{fun_ext}
use mathlib.Core.Path.{ap₂}
use go_perl.Save.{
  Memory, store, load_ptr, sign_extend, Host, HostSave, hostsave_ptr, hostsave_i32, Action,
  save_ptr, save_i32, write, act, run, hostsave_max,
}
use go_perl.Save.Undo.{IsMemory}
use go_perl.Save.Restore.{run_cons, pushed}
use go_perl.Save.Activation.Hooks.{failed_at, marked, croak_marks}

-- The action neither saves nor writes a word that a croak writes.
abbrev pub Clear : ℕ → Action → Type 0
Clear frame (save_ptr a) = (marked frame a ≡ false) × (marked frame (a + 1) ≡ false)
Clear frame (save_i32 a) = marked frame a ≡ false
Clear frame (write a v) = marked frame a ≡ false

module _ (frame : ℕ) (err : ℕ → ℕ) where
  pub croak_marks-clear :
      (m : Memory) (x : ℕ) → marked frame x ≡ false → croak_marks frame err m x ≡ m x
  unfolding croak_marks
  croak_marks-clear m x h = rw h refl

  pub croak_marks-IsMemory : (m : Memory) → IsMemory m → IsMemory (croak_marks frame err m)
  unfolding croak_marks
  croak_marks-IsMemory m words x = elim (Bool-cases (marked frame x)) [
    | inr h ↦ rw h (words x)
    | inl h ↦ elim (Bool-cases (x == failed_at frame)) [
      | inl q ↦ rw (h, q) (omega arith)
      | inr q ↦ rw (h, q) (omega arith)
    ]
  ]

  store-croak_marks :
      (m : Memory) (a v : ℕ)
      → marked frame a ≡ false
      → store (croak_marks frame err m) a v ≡ croak_marks frame err (store m a v)
  unfolding store
  store-croak_marks m a v h = fun_ext λ x. elim (Bool-cases (x == a)) [
    | inl q ↦
        let same : x ≡ a = ground arith in
        let clear : marked frame x ≡ false = ap (marked frame) same ∙ h in
        rw q (sym (croak_marks-clear (store m a v) x clear ∙ rw (store, q) refl))
    | inr q ↦ rw q (other x q)
  ]
    where
      other :
          (x : ℕ)
          → (x == a) ≡ false
          → croak_marks frame err m x ≡ croak_marks frame err (store m a v) x
      other x q = unfold croak_marks in rw (store, q) refl

  abbrev pub raise_host : Host → Host
  raise_host h = record h { memory = croak_marks frame err h.memory }

  pushed_raised :
      (b : Bool) (x y x' : Host)
      → x' ≡ raise_host x
      → (if b then none else some x) ≡ some y
      → (if b then none else some x') ≡ some (raise_host y)
  pushed_raised true x y x' h e = cc
  pushed_raised false x y x' h e =
      ap {A = Host} {B = Option Host} (λ z. some z) h
      ∙ ap {A = Host} {B = Option Host} (λ z. some (raise_host z)) (pushed false x y e)

  load_ptr-croak_marks :
      (m : Memory) (a : ℕ)
      → marked frame a ≡ false
      → marked frame (a + 1) ≡ false
      → load_ptr (croak_marks frame err m) a ≡ load_ptr m a
  load_ptr-croak_marks m a lo hi =
      ap₂ (λ x y. x + y * 2 ^ 32) (croak_marks-clear m a lo) (croak_marks-clear m (a + 1) hi)

  act_raised :
      (b : Action) (h h1 : Host)
      → Clear frame b
      → act b h ≡ some h1
      → act b (raise_host h) ≡ some (raise_host h1)
  unfolding act hostsave_ptr hostsave_i32
  act_raised (save_ptr a) h h1 (lo, hi) e =
      let entry : ℕ → HostSave = λ v. record { loc = a; val = v; scope = h.scope; width = 0 } in
      pushed_raised (leb hostsave_max (length h.saves))
        (record h { saves = entry (load_ptr h.memory a) ∷ h.saves }) h1
        (record h {
          memory = croak_marks frame err h.memory;
          saves = entry (load_ptr (croak_marks frame err h.memory) a) ∷ h.saves;
        })
        (ap
          (λ (v : ℕ). record h {
            memory = croak_marks frame err h.memory;
            saves = entry v ∷ h.saves;
          })
          (load_ptr-croak_marks h.memory a lo hi))
        e
  act_raised (save_i32 a) h h1 clear e =
      let entry : ℕ → HostSave =
        λ v. record { loc = a; val = sign_extend v; scope = h.scope; width = 4 } in
      pushed_raised (leb hostsave_max (length h.saves))
        (record h { saves = entry (h.memory a) ∷ h.saves }) h1
        (record h {
          memory = croak_marks frame err h.memory;
          saves = entry (croak_marks frame err h.memory a) ∷ h.saves;
        })
        (ap
          (λ (v : ℕ). record h {
            memory = croak_marks frame err h.memory;
            saves = entry v ∷ h.saves;
          })
          (croak_marks-clear h.memory a clear))
        e
  act_raised (write a v) h h1 clear e =
      ap (λ (m : Memory). some (record h { memory = m })) (store-croak_marks h.memory a v clear)
      ∙ pushed_raised false (record h { memory = store h.memory a v }) h1
          (record h { memory = croak_marks frame err (store h.memory a v) }) refl e

  pub run_raised :
      (actions : List Action) (h h1 : Host)
      → All (Clear frame) actions
      → run actions h ≡ some h1
      → run actions (raise_host h) ≡ some (raise_host h1)
  unfolding run
  run_raised [] h h1 clear e = pushed_raised false h h1 (raise_host h) refl e
  run_raised (b ∷ rest) h h1 (c, clear) e =
      let (h2, did, ran) = run_cons b rest h h1 e in
      ap (λ (r : Option Host). elim r [ none ↦ none | some k ↦ run rest k ])
        (act_raised b h h2 c did)
      ∙ run_raised rest h2 h1 clear ran
