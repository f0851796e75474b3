-- ===== src/Overload.antt =====
-- `goperl_amagic_deref_call` (xs/sdk/include/perl.h): an object with an overloaded dereference is
-- followed to what it stands for. The loop ends when the interpreter says so, and runs on fuel.
pub mod Follow
pub mod Examples
use go_perl.Prelude.{
  ℕ, zero, suc, ◌+◌, ◌*◌, ◌%◌, ◌^◌, Bool, Option, none, some, [], ◌==◌, if◌then◌else◌,
}
use go_perl.Bridge.{Guest, World}
use go_perl.Bridge.Op.{sv_amagic, amagic_call, sv_rv}
use go_perl.Flush.{do_op}

-- The SV that is dereferenced, or the croak at a result that is no reference.
pub data Dereffed : Type 0 where
  dereffed : ℕ → World → Dereffed
  no_reference : World → Dereffed

-- `AMGf_noright | AMGf_unary`
abbrev pub amgf_unary_noright : ℕ
amgf_unary_noright = 9

-- The first operand of the call.
abbrev pub amagic_operand : ℕ → ℕ → ℕ
amagic_operand method ref = method % 2 ^ 32 * 2 ^ 32 + ref % 2 ^ 32

-- The loop, with the rounds that are left; `tmpsv` is 0 for null.
pub deref_loop : Guest → ℕ → ℕ → ℕ → ℕ → World → Option Dereffed
deref_loop g method zero tmpsv ref w = none
deref_loop g method (suc left) tmpsv ref w =
    let (overloaded, w₁) = do_op g sv_amagic ref 0 [] w in
    let (r, w₂) = do_op g amagic_call (amagic_operand method ref) amgf_unary_noright [] w₁ in
    let (is_ref, w₃) = do_op g sv_rv r 0 [] w₂ in
    let (ra, w₄) = do_op g sv_rv r 0 [] w₃ in
    let (rb, w₅) = do_op g sv_rv ref 0 [] w₄ in
    let rest = deref_loop g method left r r w₅ in
    let found = if tmpsv == 0 then ref else tmpsv in
    if overloaded == 0
    then some (dereffed found w₁)
    else if r == 0
    then some (dereffed found w₂)
    else if is_ref == 0
    then some (no_reference w₃)
    else if r == ref
    then some (dereffed r w₃)
    else if ra == rb
    then some (dereffed r w₅)
    else rest

-- `goperl_amagic_deref_call`
pub amagic_deref_call : Guest → ℕ → ℕ → ℕ → World → Option Dereffed
unfolding deref_loop
amagic_deref_call g method fuel ref w = deref_loop g method fuel 0 ref w
