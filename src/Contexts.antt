-- ===== src/Contexts.antt =====
-- The shadow of the stack of stack infos and their contexts (xs/sdk/include/perl.h,
-- `goperl_si_materialize` and `goperl_si_cur`), on Optree, with the cache that lasts until the next
-- operation of the interpreter.
pub mod Chain
pub mod Examples
use go_perl.Prelude.{
  ℕ, zero, suc, ◌+◌, ◌*◌, ◌%◌, ◌^◌, Bool, true, false, ◌&&◌, not, Option, none, some, List, [], ◌∷◌,
  ◌==◌, ltb, if◌then◌else◌, length,
}
use go_perl.Bridge.{Guest}
use go_perl.Bridge.Op.{si_get, cx_fields, cx_ptr}
use go_perl.Flush.{do_op}
use go_perl.Optree.{Optree}
use go_perl.Optree.Build.{GuestText, cop_shadow, op_shadow_full}

-- `PERL_CONTEXT`: ops by their addresses, the sub by its token.
pub record Context : Type 0 where
  pub cx_type : ℕ
  pub blk_oldcop : ℕ
  pub cv : ℕ
  pub my_op : ℕ

-- `PERL_SI`; an I32 is its 32-bit pattern. The infos that `si_prev` links are a list.
pub record StackInfo : Type 0 where
  pub tok : ℕ
  pub si_type : ℕ
  pub si_cxix : ℕ
  pub si_cxstack : List Context

-- The op tree with `si_cache` and `si_gen` of the shared block; `[]` for a null cache.
pub record Contexts : Type 0 where
  pub tree : Optree
  pub si_cache : List StackInfo
  pub si_gen : ℕ

-- How often the loop below `I32 n = si->si_cxix + 1` runs, for the pattern of `si_cxix`.
pub context_count : ℕ → ℕ
context_count cxix = let n = (cxix + 1) % 2 ^ 32 in if ltb n (2 ^ 31) then n else 0

-- The body of that loop.
pub context_at : Guest → GuestText → ℕ → ℕ → Optree → Context × Optree
context_at g text tok i t =
    let (fields, w) = do_op g cx_fields tok i [] t.world in
    let (oldcop, w') = do_op g cx_ptr tok (i * 2 ^ 8) [] w in
    let (cop, t₁) = cop_shadow g text oldcop (record t { world = w' }) in
    let (cv, w'') = do_op g cx_ptr tok (i * 2 ^ 8 + 1) [] t₁.world in
    let (my_op, w''') = do_op g cx_ptr tok (i * 2 ^ 8 + 2) [] w'' in
    let (op, t₂) = op_shadow_full g text my_op (record t₁ { world = w''' }) in
    (record { cx_type = fields % 2 ^ 8; blk_oldcop = cop; cv = cv; my_op = op }, t₂)

-- The loop, with the contexts that are left.
pub contexts_from : Guest → GuestText → ℕ → ℕ → ℕ → Optree → List Context × Optree
unfolding context_at
contexts_from g text tok i zero t = ([], t)
contexts_from g text tok i (suc left) t =
    let (cx, t₁) = context_at g text tok i t in
    let (rest, t₂) = contexts_from g text tok (suc i) left t₁ in (cx ∷ rest, t₂)

-- The info of a token, without `si_prev`, and the token of that.
pub stack_info : Guest → GuestText → ℕ → Optree → StackInfo × ℕ × Optree
unfolding contexts_from context_count
stack_info g text tok t =
    let (type, w) = do_op g si_get tok 2 [] t.world in
    let (cxix, w') = do_op g si_get tok 3 [] w in
    let ix = cxix % 2 ^ 32 in
    let (cxs, t₁) = contexts_from g text tok 0 (context_count ix) (record t { world = w' }) in
    let (prev, w'') = do_op g si_get tok 1 [] t₁.world in
    (
      record { tok = tok; si_type = type % 2 ^ 32; si_cxix = ix; si_cxstack = cxs },
      prev,
      record t₁ { world = w'' },
    )

-- `goperl_si_materialize` of a token that is not 0, with the depths that are left.
pub si_chain : Guest → GuestText → ℕ → ℕ → Optree → List StackInfo × Optree
unfolding stack_info
si_chain g text zero tok t = ([], t)
si_chain g text (suc left) tok t =
    let (si, prev, t₁) = stack_info g text tok t in
    let (older, t₂) = si_chain g text left prev t₁ in
    if prev == 0 then (si ∷ [], t₁) else (si ∷ older, t₂)

-- The depths from 0 to 16.
abbrev pub si_depths : ℕ
si_depths = 17

-- `goperl_si_materialize(f, 0, 0)`: the token is asked for.
pub si_materialize : Guest → GuestText → Optree → List StackInfo × Optree
unfolding si_chain
si_materialize g text t =
    let (tok, w) = do_op g si_get 0 0 [] t.world in
    let t₁ = record t { world = w } in
    let made = si_chain g text si_depths tok t₁ in if tok == 0 then ([], t₁) else made

abbrev pub is_null : List StackInfo → Bool
is_null [] = true
is_null (si ∷ older) = false

-- What follows the test of the cache.
pub si_remade : Guest → GuestText → Contexts → Option (List StackInfo) × Contexts
unfolding si_materialize
si_remade g text c =
    let (chain, t) = si_materialize g text c.tree in
    let c' : Contexts = record { tree = t; si_cache = chain; si_gen = t.world.shared.gen } in
    if is_null chain then (none, c') else (some chain, c')

-- `goperl_si_cur`, or `none` for a croak.
pub si_cur : Guest → GuestText → Contexts → Option (List StackInfo) × Contexts
unfolding si_remade
si_cur g text c =
    let made = si_remade g text c in
    if not (is_null c.si_cache) && (c.si_gen == c.tree.world.shared.gen)
    then (some c.si_cache, c)
    else made
