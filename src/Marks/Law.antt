-- ===== src/Marks/Law.antt =====
-- Marks come back last first, also to a module that moves the pointer.
use go_perl.Prelude.{
  ℕ, ◌+◌, ◌-◌, ◌<◌, ◌≤◌, ◌≡◌, refl, ap, ◌∙◌, Bool, true, false, Option, none, some, List, leb,
  if◌then◌else◌, get_or, set, length, arith, get_or-set, get_or-set_other, Bool-cases, inl, inr,
}
use go_perl.Marks.{
  xs_stack, stack_extend, xs_marks, Marks, marks_adopt, marks_publish, popmark, pushmark, bump,
}

-- The number of marks that the next operation goes by.
abbrev pub depth : Marks → ℕ
depth m = if m.owner then m.ptr else m.count

-- What pushing a mark promises.
pub record IsPushed (off : ℕ) (m m' : Marks) : Type 0 where
  pub depth_after : depth m' ≡ depth m + 1
  pub popped : (popmark m').0 ≡ off
  pub depth_back : depth (popmark m').1 ≡ depth m
  pub below : (i : ℕ) → i < depth m → get_or (popmark m').1.marks i 0 ≡ get_or m.marks i 0
  pub unpopped : (popmark (bump (popmark m').1)).0 ≡ off

abbrev pub Pushed : ℕ → Marks → Option Marks → Type 0
Pushed off m none = xs_marks ≤ depth m
Pushed off m (some m') = IsPushed off m m'

marks_adopt-eq : (m : Marks) → marks_adopt m ≡ record m { count = depth m }
unfolding marks_adopt
marks_adopt-eq m = go m.owner
  where
    go :
        (b : Bool)
        → (if b then record m { count = m.ptr } else m)
          ≡ record m { count = if b then m.ptr else m.count }
    go true = refl
    go false = refl

-- `popmark` where the depth is known.
popmark-eq :
    (ms : List ℕ) (c d : ℕ)
    → popmark (record { marks = ms; count = c; owner = true; ptr = d + 1 })
      ≡ (get_or ms d 0, record { marks = ms; count = d; owner = true; ptr = d })
unfolding popmark marks_adopt marks_publish
popmark-eq ms c d =
    let pos : leb 1 (d + 1) ≡ true = ground arith in
    let back : d + 1 - 1 ≡ d = omega arith in rw (pos, back) refl

pushed_state : ℕ → Marks → Marks
pushed_state off m = record {
  marks = set m.marks (depth m) off;
  count = depth m + 1;
  owner = true;
  ptr = depth m + 1;
}

pushmark-eq :
    (off : ℕ) (m : Marks)
    → pushmark off m ≡ (if leb xs_marks (depth m) then none else some (pushed_state off m))
unfolding pushmark marks_publish pushed_state
pushmark-eq off m =
    ap
      (λ a.
        if leb xs_marks a.count
        then none
        else some
            (marks_publish (record a { marks = set a.marks a.count off; count = a.count + 1 })))
      (marks_adopt-eq m)

pushed_state-IsPushed :
    (off : ℕ) (m : Marks) → depth m < length m.marks → IsPushed off m (pushed_state off m)
unfolding pushed_state bump marks_publish
pushed_state-IsPushed off m h =
    let ms = set m.marks (depth m) off in
    let first = popmark-eq ms (depth m + 1) (depth m) in
    let top = get_or-set m.marks (depth m) off 0 h in
    record {
      depth_after = refl;
      popped = ap (λ p. p.0) first ∙ top;
      depth_back = ap (λ p. depth p.1) first;
      below = λ i l.
          ap (λ p. get_or p.1.marks i 0) first
          ∙ get_or-set_other m.marks (depth m) i off 0 (λ e. omega (arith, e));
      unpopped =
          ap (λ p. (popmark (bump p.1)).0) first
          ∙ ap (λ p. p.0) (popmark-eq ms (depth m) (depth m))
          ∙ top;
    }

-- On a frame with its 64 marks: `pushmark` croaks only if all of them are taken; else `popmark`
-- gives the mark back and leaves those below it, and a module that then moves the pointer up by
-- one pops the same mark once more.
pub pushmark_lem : (off : ℕ) (m : Marks) → length m.marks ≡ xs_marks → Pushed off m (pushmark off m)
pushmark_lem off m size = elim (Bool-cases (leb xs_marks (depth m))) [
  | inl full ↦ rw (pushmark-eq off m, full) (fits full)
  | inr room ↦ rw (pushmark-eq off m, room) (pushed_state-IsPushed off m (ground arith))
]
  where
    fits : leb xs_marks (depth m) ≡ true → xs_marks ≤ depth m
    fits h = ground arith

-- EXTEND returns exactly if the elements stay inside the stack.
pub stack_extend-fits :
    (sp n : ℕ)
    → (stack_extend sp n ≡ true → sp + n < xs_stack)
      × (stack_extend sp n ≡ false → xs_stack ≤ sp + n)
unfolding stack_extend
stack_extend-fits sp n = ((λ h. ground arith), λ h. ground arith)
