-- ===== src/Marks.antt =====
-- The mark stack of a frame (xs/sdk/include/perl.h), with the pointer `PL_markstack_ptr` that a
-- module may move, and the check of EXTEND.
pub mod Law
pub mod Examples
use go_perl.Prelude.{
  ℕ, zero, suc, ◌+◌, ◌-◌, ◌%◌, ◌^◌, Bool, true, false, Option, none, some, List, leb, if◌then◌else◌,
  get_or, set,
}

-- `GOPERL_XS_MARKS` and `GOPERL_XS_STACK`
abbrev pub xs_marks : ℕ
xs_marks = 64

abbrev pub xs_stack : ℕ
xs_stack = 512

-- The marks of a frame and the number of them, `markidx + 1`; whether the shared pointer is this
-- frame's, and the number of marks up to it.
pub record Marks : Type 0 where
  pub marks : List ℕ
  pub count : ℕ
  pub owner : Bool
  pub ptr : ℕ

-- `goperl_marks_adopt`
pub marks_adopt : Marks → Marks
marks_adopt m = if m.owner then record m { count = m.ptr } else m

-- `goperl_marks_publish`
pub marks_publish : Marks → Marks
marks_publish m = record m { owner = true; ptr = m.count }

-- `goperl_popmark`: the mark, and the stack behind it.
pub popmark : Marks → ℕ × Marks
popmark m =
    let a = marks_adopt m in
    if leb 1 a.count
    then (get_or a.marks (a.count - 1) 0, marks_publish (record a { count = a.count - 1 }))
    else (0, marks_publish a)

-- `goperl_pushmark`; `none` is the croak of a full stack.
pub pushmark : ℕ → Marks → Option Marks
pushmark off m =
    let a = marks_adopt m in
    if leb xs_marks a.count
    then none
    else some (marks_publish (record a { marks = set a.marks a.count off; count = a.count + 1 }))

-- The module's `PL_markstack_ptr++`.
pub bump : Marks → Marks
bump m = let p = marks_publish m in record p { ptr = p.ptr + 1 }

-- `goperl_stack_extend` with `sp` as an index, for `n` at least 0: whether it returns.
pub stack_extend : ℕ → ℕ → Bool
stack_extend sp n = if leb xs_stack (sp + n) then false else true
