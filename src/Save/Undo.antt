-- ===== src/Save/Undo.antt =====
-- Unwinding the save stack undoes what was written to saved locations.
use go_perl.Prelude.{
  ℕ, ◌+◌, ◌^◌, ◌<◌, ◌≡◌, refl, ap, ◌∙◌, Bool, true, false, ◌||◌, List, [], ◌∷◌, ◌++◌, ◌==◌,
  if◌then◌else◌, length, arith, Bool-cases, inl, inr, length-append,
}
use std.Path.{fun_ext}
use go_perl.Prelude.{not, ◌&&◌}
use go_perl.Save.{
  Memory, store, load_ptr, store_ptr, sign_extend, HostSave, restore, unwind, Action, save_ptr,
  save_i32, write,
}

-- The entry restores the word.
abbrev pub covers : HostSave → ℕ → Bool
covers e x = x == e.loc || (not (e.width == 4) && x == e.loc + 1)

choose-at : (b : Bool) (f g : Memory) (y : ℕ) → (if b then f else g) y ≡ (if b then f y else g y)
choose-at true f g y = refl
choose-at false f g y = refl

restore-at :
    (e : HostSave) (m : Memory) (y : ℕ)
    → restore e m y ≡ (if e.width == 4 then store m e.loc e.val y else store_ptr m e.loc e.val y)
unfolding restore
restore-at e m y = choose-at (e.width == 4) (store m e.loc e.val) (store_ptr m e.loc e.val) y

restore-store_in :
    (e : HostSave) (m : Memory) (x v : ℕ)
    → covers e x ≡ true
    → restore e (store m x v) ≡ restore e m
unfolding store store_ptr
restore-store_in e m x v c =
    fun_ext λ y. ground (arith, restore-at e (store m x v) y, restore-at e m y)

restore-store_out :
    (e : HostSave) (m : Memory) (x v : ℕ)
    → covers e x ≡ false
    → restore e (store m x v) ≡ store (restore e m) x v
unfolding store store_ptr
restore-store_out e m x v c =
    fun_ext λ y. ground (arith, restore-at e (store m x v) y, restore-at e m y)

-- The words of the locations that the entries restore.
abbrev pub saved_words : List HostSave → List ℕ
saved_words [] = []
saved_words (e ∷ es) =
    if e.width == 4 then e.loc ∷ saved_words es else e.loc ∷ (e.loc + 1) ∷ saved_words es

abbrev pub member : ℕ → List ℕ → Bool
member x [] = false
member x (y ∷ ys) = x == y || member x ys

-- The memory after the entries are restored, the first one first.
abbrev pub undo : List HostSave → Memory → Memory
undo [] m = m
undo (e ∷ es) m = undo es (restore e m)

member-saved :
    (e : HostSave) (es : List HostSave) (x : ℕ)
    → member x (saved_words (e ∷ es)) ≡ (covers e x || member x (saved_words es))
member-saved e es x = go (e.width == 4)
  where
    go :
        (b : Bool)
        → member x (if b then e.loc ∷ saved_words es else e.loc ∷ (e.loc + 1) ∷ saved_words es)
          ≡ ((x == e.loc || (not b && x == e.loc + 1)) || member x (saved_words es))
    go true = ground arith
    go false = ground arith

-- A write to a saved word is undone.
pub undo-store :
    (es : List HostSave) (m : Memory) (x v : ℕ)
    → member x (saved_words es) ≡ true
    → undo es (store m x v) ≡ undo es m
undo-store [] m x v h = cc
undo-store (e ∷ es) m x v h = elim (Bool-cases (covers e x)) [
  | inl c ↦ ap (undo es) (restore-store_in e m x v c)
  | inr c ↦
      ap (undo es) (restore-store_out e m x v c)
      ∙ undo-store es (restore e m) x v (ground (arith, member-saved e es x))
]

-- Every word has 32 bits.
abbrev pub IsMemory : Memory → Type 0
IsMemory m = (x : ℕ) → m x < 2 ^ 32

pub restore-ptr :
    (m : Memory) (a s : ℕ)
    → IsMemory m
    → restore (record { loc = a; val = load_ptr m a; scope = s; width = 0 }) m ≡ m
unfolding restore store_ptr store
restore-ptr m a s b = fun_ext λ x. ground (arith, b a, b (a + 1))

pub restore-i32 :
    (m : Memory) (a s : ℕ)
    → IsMemory m
    → restore (record { loc = a; val = sign_extend (m a); scope = s; width = 4 }) m ≡ m
unfolding restore store
restore-i32 m a s b = fun_ext λ x. ground (arith, b a)

pub store-IsMemory : (m : Memory) (a v : ℕ) → IsMemory m → IsMemory (store m a v)
unfolding store
store-IsMemory m a v b x = ground (arith, b x)

-- Each write goes to a word that is saved by then.
abbrev pub Guarded : List ℕ → List Action → Type 0
Guarded ws [] = Unit
Guarded ws (save_ptr a ∷ rest) = Guarded (a ∷ (a + 1) ∷ ws) rest
Guarded ws (save_i32 a ∷ rest) = Guarded (a ∷ ws) rest
Guarded ws (write a v ∷ rest) = (member a ws ≡ true) × Guarded ws rest

pub unwind-append :
    (es base : List HostSave) (m : Memory) → unwind (length base) (es ++ base) m ≡ (base, undo es m)
unfolding unwind
unwind-append [] [] m = refl
unwind-append [] (b ∷ base) m = ground arith
unwind-append (e ∷ es) base m =
    ground (arith, unwind-append es base (restore e m), length-append es base)
