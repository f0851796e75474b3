-- ===== src/Save/Restore.antt =====
-- What a module saves and then writes is as it was once the saves are unwound or the scope is left.
use go_perl.Prelude.{
  ℕ, ◌+◌, ◌-◌, ◌%◌, ◌^◌, ◌<◌, ◌≤◌, ◌≡◌, refl, ap, sym, ◌∙◌, Bool, true, false, Option, none, some,
  List, [], ◌∷◌, ◌++◌, ltb, leb, if◌then◌else◌, length, arith, inl, inr, ◌⊎◌, All,
}
use mathlib.Core.Path.{subst, ap₂}
use go_perl.Bridge.{Guest, World}
use go_perl.Bridge.Op.{enter, leave}
use go_perl.Flush.{do_op}
use go_perl.Save.{
  Memory, store, load_ptr, store_ptr, sign_extend, HostSave, Host, restore, unwind,
  hostsave_unwind_to, Action, save_ptr, save_i32, write, act, run, hostsave_ptr, hostsave_i32,
  enter_scope, leave_scope, leave_loop,
}
use go_perl.Save.Undo.{
  saved_words, undo, undo-store, IsMemory, restore-ptr, restore-i32, store-IsMemory, Guarded,
  unwind-append,
}

-- An entry of the scope `s`; one that is not of pointer width only where `narrow` holds.
abbrev pub Entry : Type 0 → ℕ → HostSave → Type 0
Entry narrow s e = (e.scope ≡ s) × ((e.width ≡ 0) ⊎ narrow)

abbrev pub Allowed : Type 0 → Action → Type 0
Allowed narrow (save_ptr a) = Unit
Allowed narrow (save_i32 a) = narrow
Allowed narrow (write a v) = Unit

-- The host after some actions: the entries `es` stand on top of `base`, and restoring them gives
-- `m`.
record IsGrown (narrow : Type 0) (base : List HostSave) (m : Memory) (s : ℕ) (w : World) (h : Host)
    (es : List HostSave) : Type 0 where
  pub saves : h.saves ≡ es ++ base
  pub undone : undo es h.memory ≡ m
  pub words : IsMemory h.memory
  pub entries : All (Entry narrow s) es
  pub scope : h.scope ≡ s
  pub world : h.world ≡ w

pub run_cons :
    (a : Action) (rest : List Action) (h h' : Host)
    → run (a ∷ rest) h ≡ some h'
    → (h1 : Host) × (act a h ≡ some h1) × (run rest h1 ≡ some h')
unfolding run
run_cons a rest h h' e = go (act a h) refl e
  where
    go :
        (r : Option Host)
        → act a h ≡ r
        → (elim r [ none ↦ none | some h1 ↦ run rest h1 ]) ≡ some h'
        → (h1 : Host) × (act a h ≡ some h1) × (run rest h1 ≡ some h')
    go none q f = cc
    go (some h1) q f = (h1, q, f)

pub pushed : {A : Type 0} (b : Bool) (x y : A) → (if b then none else some x) ≡ some y → x ≡ y
pushed true x y e = cc
pushed false x y e = cc

module _ (narrow : Type 0) (base : List HostSave) (m : Memory) (s : ℕ) (w : World) where
  act-IsGrown :
      (a : Action) (h h1 : Host) (es : List HostSave) (rest : List Action)
      → IsGrown narrow base m s w h es
      → Guarded (saved_words es) (a ∷ rest)
      → Allowed narrow a
      → act a h ≡ some h1
      → (es1 : List HostSave) × IsGrown narrow base m s w h1 es1 × Guarded (saved_words es1) rest
  unfolding act hostsave_ptr hostsave_i32
  act-IsGrown (save_ptr a) h h1 es rest g guard ok e =
      let saved : HostSave = record {
        loc = a;
        val = load_ptr h.memory a;
        scope = h.scope;
        width = 0;
      } in
      (
        saved ∷ es,
        subst (λ k. IsGrown narrow base m s w k (saved ∷ es))
            (pushed _ (record h { saves = saved ∷ h.saves }) h1 e)
            (record {
              saves = ap (λ l. saved ∷ l) g.saves;
              undone = ap (undo es) (restore-ptr h.memory a h.scope g.words) ∙ g.undone;
              words = g.words;
              entries = ((g.scope, inl refl), g.entries);
              scope = g.scope;
              world = g.world;
            }),
        guard,
      )
  act-IsGrown (save_i32 a) h h1 es rest g guard ok e =
      let saved : HostSave = record {
        loc = a;
        val = sign_extend (h.memory a);
        scope = h.scope;
        width = 4;
      } in
      (
        saved ∷ es,
        subst (λ k. IsGrown narrow base m s w k (saved ∷ es))
            (pushed _ (record h { saves = saved ∷ h.saves }) h1 e)
            (record {
              saves = ap (λ l. saved ∷ l) g.saves;
              undone = ap (undo es) (restore-i32 h.memory a h.scope g.words) ∙ g.undone;
              words = g.words;
              entries = ((g.scope, inr ok), g.entries);
              scope = g.scope;
              world = g.world;
            }),
        guard,
      )
  act-IsGrown (write a v) h h1 es rest g guard ok e = (
    es,
    subst (λ k. IsGrown narrow base m s w k es)
        (pushed false (record h { memory = store h.memory a v }) h1 e)
        (record {
          saves = g.saves;
          undone = undo-store es h.memory a v guard.0 ∙ g.undone;
          words = store-IsMemory h.memory a v g.words;
          entries = g.entries;
          scope = g.scope;
          world = g.world;
        }),
    guard.1,
  )

  run-IsGrown :
      (actions : List Action) (h h' : Host) (es : List HostSave)
      → IsGrown narrow base m s w h es
      → Guarded (saved_words es) actions
      → All (Allowed narrow) actions
      → run actions h ≡ some h'
      → (es' : List HostSave) × IsGrown narrow base m s w h' es'
  run-IsGrown [] h h' es g guard ok e =
      unfold run in (es, subst (λ k. IsGrown narrow base m s w k es) (pushed false h h' e) g)
  run-IsGrown (a ∷ rest) h h' es g guard ok e =
      let (h1, e1, er) = run_cons a rest h h' e in
      let (es1, g1, guard1) = act-IsGrown a h h1 es rest g guard ok.0 e1 in
      run-IsGrown rest h1 h' es1 g1 guard1 ok.1 er

start :
    (narrow : Type 0) (h : Host)
    → IsMemory h.memory
    → IsGrown narrow h.saves h.memory h.scope h.world h []
start narrow h words = record {
  saves = refl;
  undone = refl;
  words = words;
  entries = tt;
  scope = refl;
  world = refl;
}

allowed : (actions : List Action) → All (Allowed Unit) actions
allowed [] = tt
allowed (save_ptr a ∷ rest) = (tt, allowed rest)
allowed (save_i32 a ∷ rest) = (tt, allowed rest)
allowed (write a v ∷ rest) = (tt, allowed rest)

-- Whatever the module saves, of either width, and writes to what it has saved: unwinding to the
-- depth before gives exactly the host state before.
pub hostsave_unwind_to-run :
    (actions : List Action) (h h' : Host)
    → IsMemory h.memory
    → Guarded [] actions
    → run actions h ≡ some h'
    → hostsave_unwind_to (length h.saves) h' ≡ h
unfolding hostsave_unwind_to
hostsave_unwind_to-run actions h h' words guard e =
    let (es, g) =
      run-IsGrown Unit h.saves h.memory h.scope h.world actions h h' [] (start Unit h words) guard
        (allowed actions) e in
    let far : unwind (length h.saves) h'.saves h'.memory ≡ (h.saves, h.memory) =
      ap (λ l. unwind (length h.saves) l h'.memory) g.saves
      ∙ unwind-append es h.saves h'.memory
      ∙ ap (λ m. (h.saves, m)) g.undone in
    ap (λ p. record h' { saves = p.0; memory = p.1 }) far
    ∙ ap₂ (λ s w. record h { scope = s; world = w }) g.scope g.world

pub run_nil : (h : Host) → run [] h ≡ some h
unfolding run
run_nil h = refl

pub unwind-run :
    (actions : List Action) (h h' : Host)
    → IsMemory h.memory
    → Guarded [] actions
    → run actions h ≡ some h'
    → unwind (length h.saves) h'.saves h'.memory ≡ (h.saves, h.memory)
unfolding hostsave_unwind_to
unwind-run actions h h' words guard e =
    ap (λ (k : Host). (k.saves, k.memory)) (hostsave_unwind_to-run actions h h' words guard e)

pub unwind-same :
    (h : Host) → IsMemory h.memory → unwind (length h.saves) h.saves h.memory ≡ (h.saves, h.memory)
unwind-same h words = unwind-run [] h h words tt (run_nil h)

restore-wide :
    (e : HostSave) (m : Memory) → (e.width ≡ 0) ⊎ ⊥ → store_ptr m e.loc e.val ≡ restore e m
unfolding restore
restore-wide e m (inl w) = rw w refl
restore-wide e m (inr never) = absurd never

below-enter :
    (s : ℕ) (es : List HostSave)
    → s + 1 < 2 ^ 32
    → All (λ e. e.scope ≤ s) es
    → All (λ e. e.scope < (s + 1) % 2 ^ 32) es
below-enter s [] small h = tt
below-enter s (e ∷ es) small h = (omega arith, below-enter s es small h.1)

leave_loop-append :
    (s : ℕ) (es base : List HostSave) (m : Memory)
    → All (Entry ⊥ s) es
    → All (λ e. e.scope < s) base
    → leave_loop s (es ++ base) m ≡ (base, undo es m)
unfolding leave_loop
leave_loop-append s [] [] m inside below = refl
leave_loop-append s [] (b ∷ base) m inside below = ground arith
leave_loop-append s (e ∷ es) base m inside below =
    let wide : store_ptr m e.loc e.val ≡ restore e m = restore-wide e m inside.0.1 in
    let here : leb s e.scope ≡ true = ground arith in
    rw (here, wide) (leave_loop-append s es base (restore e m) inside.1 below)

leave_loop-top :
    (s : ℕ) (e : HostSave) (base : List HostSave) (m : Memory)
    → e.scope ≡ s
    → All (λ k. k.scope < s) base
    → leave_loop s (e ∷ base) m ≡ (base, store_ptr m e.loc e.val)
unfolding leave_loop
leave_loop-top s e base m same below =
    let here : leb s e.scope ≡ true = ground arith in
    rw here (leave_loop-append s [] base (store_ptr m e.loc e.val) tt below)

next_word :
    (m : Memory) (loc v : ℕ)
    → v < 2 ^ 32
    → store_ptr m loc (sign_extend v) (loc + 1) ≡ (if ltb v (2 ^ 31) then 0 else 2 ^ 32 - 1)
unfolding store_ptr store
next_word m loc v small = ground arith

-- With pointers alone saved inside the scope, and only saved words written, leaving the scope
-- gives the host state before it was entered, where the guest has seen both operations. The
-- entries below are of outer scopes.
pub leave_scope-run :
    (g : Guest) (actions : List Action) (h h' : Host)
    → IsMemory h.memory
    → h.scope + 1 < 2 ^ 32
    → All (λ e. e.scope ≤ h.scope) h.saves
    → Guarded [] actions
    → All (Allowed ⊥) actions
    → run actions (enter_scope g h) ≡ some h'
    → leave_scope g h'
      ≡ record h { world = (do_op g leave 0 0 [] (do_op g enter 0 0 [] h.world).1).1 }
unfolding leave_scope enter_scope
leave_scope-run g actions h h' words small outer guard ok e =
    let inner = enter_scope g h in
    let (es, r) =
      run-IsGrown ⊥ h.saves h.memory inner.scope inner.world actions inner h' []
        (start ⊥ inner words) guard ok e in
    let far : leave_loop h'.scope h'.saves h'.memory ≡ (h.saves, h.memory) =
      ap₂ (λ s l. leave_loop s l h'.memory) r.scope r.saves
      ∙ leave_loop-append inner.scope es h.saves h'.memory r.entries
          (below-enter h.scope h.saves small outer)
      ∙ ap (λ m. (h.saves, m)) r.undone in
    let back : (h'.scope + (2 ^ 32 - 1)) % 2 ^ 32 ≡ h.scope = omega (arith, r.scope) in
    ap
      (λ p. record h' {
        saves = p.0;
        memory = p.1;
        scope = (h'.scope + (2 ^ 32 - 1)) % 2 ^ 32;
        world = (do_op g leave 0 0 [] h'.world).1;
      })
      far
    ∙ ap₂ (λ s w. record h { scope = s; world = (do_op g leave 0 0 [] w).1 }) back r.world

-- A 32-bit location that is saved inside the scope and never written: leaving the scope sets the
-- word behind it to the sign of the value, whatever that word held.
pub leave_scope-hostsave_i32 :
    (g : Guest) (loc : ℕ) (h h' : Host)
    → IsMemory h.memory
    → h.scope + 1 < 2 ^ 32
    → All (λ e. e.scope ≤ h.scope) h.saves
    → hostsave_i32 loc (enter_scope g h) ≡ some h'
    → (leave_scope g h').memory (loc + 1) ≡ (if ltb (h.memory loc) (2 ^ 31) then 0 else 2 ^ 32 - 1)
unfolding leave_scope enter_scope hostsave_i32
leave_scope-hostsave_i32 g loc h h' words small outer e =
    let inner = enter_scope g h in
    let saved : HostSave = record {
      loc = loc;
      val = sign_extend (h.memory loc);
      scope = inner.scope;
      width = 4;
    } in
    rw
      (
        sym (pushed _ (record inner { saves = saved ∷ h.saves }) h' e),
        leave_loop-top inner.scope saved h.saves h.memory refl
            (below-enter h.scope h.saves small outer),
      )
      (next_word h.memory loc (h.memory loc) (words loc))
