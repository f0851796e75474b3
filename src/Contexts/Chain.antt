-- ===== src/Contexts/Chain.antt =====
-- The chain of stack infos that a module sees.
use mathlib.Core.Path.{subst}
use go_perl.Prelude.{
  ◌+◌, ◌∙◌, ◌%◌, ◌^◌, ℕ, zero, suc, ◌≤◌, ◌≡◌, ◌≢◌, inl, inr, refl, sym, ap, Bool, true, false, ◌&&◌,
  not, Option, none, some, List, [], ◌∷◌, ◌==◌, ==_refl, All, arith, Bool-cases, length,
}
use go_perl.Bridge.{Guest, World}
use go_perl.Bridge.Op.{GuestOp, si_get}
use go_perl.Flush.Funnel.{do_op_lem}
use go_perl.Flush.{do_op}
use go_perl.Optree.{Optree}
use go_perl.Optree.Build.{GuestText}
use go_perl.Contexts.{
  StackInfo, Contexts, context_count, contexts_from, context_at, stack_info, si_chain, si_depths,
  si_materialize, is_null, si_remade, si_cur,
}

-- The info has a token and as many contexts as its index says.
abbrev pub Complete : StackInfo → Type 0
Complete si = (si.tok ≢ 0) × (length si.si_cxstack ≡ context_count si.si_cxix)

-- A chain of at most `n` infos.
abbrev pub Chain : ℕ → List StackInfo → Type 0
Chain n chain = All Complete chain × (length chain ≤ n)

length-contexts_from :
    (g : Guest) (text : GuestText) (tok i left : ℕ) (t : Optree)
    → length (contexts_from g text tok i left t).0 ≡ left
unfolding contexts_from
length-contexts_from g text tok i zero t = refl
length-contexts_from g text tok i (suc left) t =
    ap suc (length-contexts_from g text tok (suc i) left (context_at g text tok i t).1)

stack_info-Complete :
    (g : Guest) (text : GuestText) (tok : ℕ) (t : Optree)
    → tok ≢ 0
    → Complete (stack_info g text tok t).0
unfolding stack_info
stack_info-Complete g text tok t nz = (nz, length-contexts_from g text tok 0 (context_count _) _)

si_chain-Chain :
    (g : Guest) (text : GuestText) (left tok : ℕ) (t : Optree)
    → tok ≢ 0
    → Chain left (si_chain g text left tok t).0
unfolding si_chain
si_chain-Chain g text zero tok t nz = (tt, omega arith)
si_chain-Chain g text (suc left) tok t nz =
    let made = stack_info g text tok t in
    let here = stack_info-Complete g text tok t nz in
    elim (Bool-cases (made.1 == 0)) [
      | inl e ↦ rw e ((here, tt), omega arith)
      | inr e ↦
          let older = si_chain-Chain g text left made.1 made.2 (ground arith) in
          let short = older.1 in rw e ((here, older.0), omega arith)
    ]

si_materialize-Chain :
    (g : Guest) (text : GuestText) (t : Optree) → Chain si_depths (si_materialize g text t).0
unfolding si_materialize
si_materialize-Chain g text t =
    let asked = do_op g si_get 0 0 [] t.world in
    elim (Bool-cases (asked.0 == 0)) [
      | inl e ↦ rw e (tt, omega arith)
      | inr e ↦
          rw e
            (si_chain-Chain g text si_depths asked.0 (record t { world = asked.1 }) (ground arith))
    ]

-- The state behind an operation of the interpreter.
abbrev pub after_op : Guest → GuestOp → ℕ → ℕ → List ℕ → Contexts → Contexts
after_op g op a b s c = record c {
  tree = record (c.tree) { world = (do_op g op a b s c.tree.world).1 };
}

-- What a read of the chain gives: a croak, or the chain that the cache keeps. The next read gives
-- it again without a call, and the one behind an operation asks for a new chain.
abbrev pub Read : Guest → GuestText → Option (List StackInfo) × Contexts → Type 0
Read g text (none, c) = c.si_cache ≡ []
Read g text (some chain, c) =
    (c.si_cache ≡ chain)
    × (si_cur g text c ≡ (some chain, c))
    × ((op : GuestOp) (a b : ℕ) (s : List ℕ)
        → let c' = after_op g op a b s c in si_cur g text c' ≡ si_remade g text c')

is_null_iff : (chain : List StackInfo) → is_null chain ≡ true → chain ≡ []
is_null_iff [] h = refl
is_null_iff (si ∷ older) h = absurd (ground arith)

-- The cache is there, and no operation came since it was made.
abbrev cached : Contexts → Bool
cached c = not (is_null c.si_cache) && (c.si_gen == c.tree.world.shared.gen)

si_cur-cached :
    (g : Guest) (text : GuestText) (c : Contexts)
    → cached c ≡ true
    → si_cur g text c ≡ (some c.si_cache, c)
unfolding si_cur
si_cur-cached g text c e = rw e refl

si_cur-stale :
    (g : Guest) (text : GuestText) (c : Contexts)
    → cached c ≡ false
    → si_cur g text c ≡ si_remade g text c
unfolding si_cur
si_cur-stale g text c e = rw e refl

next_gen : (gen : ℕ) → (gen == (gen + 1) % 2 ^ 64) ≡ false
next_gen gen = let moved : gen ≢ (gen + 1) % 2 ^ 64 = omega arith in ground arith

gen-do_op :
    (g : Guest) (op : GuestOp) (a b : ℕ) (s : List ℕ) (w : World)
    → (do_op g op a b s w).1.shared.gen ≡ (w.shared.gen + 1) % 2 ^ 64
gen-do_op g op a b s w = ap (λ r. r.1.shared.gen) (do_op_lem g op a b s w).0

-- A cache that was made before the operation is not used.
cached-after_op :
    (g : Guest) (op : GuestOp) (a b : ℕ) (s : List ℕ) (c : Contexts)
    → c.si_gen ≡ c.tree.world.shared.gen
    → cached (after_op g op a b s c) ≡ false
cached-after_op g op a b s c now =
    let w = c.tree.world in
    let old : (c.si_gen == (do_op g op a b s w).1.shared.gen) ≡ false =
      ap (λ n. n == (do_op g op a b s w).1.shared.gen) now
      ∙ ap (λ n. w.shared.gen == n) (gen-do_op g op a b s w)
      ∙ next_gen w.shared.gen in
    elim (Bool-cases (is_null c.si_cache)) [ inl e ↦ rw e refl | inr e ↦ rw e old ]

cached_now : (c : Contexts) → cached c ≡ true → c.si_gen ≡ c.tree.world.shared.gen
cached_now c e = ground arith

si_remade-Read : (g : Guest) (text : GuestText) (c : Contexts) → Read g text (si_remade g text c)
unfolding si_remade
si_remade-Read g text c =
    let (chain, t) = si_materialize g text c.tree in
    let c' : Contexts = record { tree = t; si_cache = chain; si_gen = t.world.shared.gen } in
    elim (Bool-cases (is_null chain)) [
      | inl e ↦ rw e (is_null_iff chain e)
      | inr e ↦
          let fresh : cached c' ≡ true = rw e (==_refl t.world.shared.gen) in
          rw e (
            refl,
            si_cur-cached g text c' fresh,
            λ op a b s.
                si_cur-stale g text (after_op g op a b s c') (cached-after_op g op a b s c' refl),
          )
    ]

si_remade-Chain :
    (g : Guest) (text : GuestText) (c : Contexts) → Chain si_depths (si_remade g text c).1.si_cache
unfolding si_remade
si_remade-Chain g text c =
    let (chain, t) = si_materialize g text c.tree in
    let whole = si_materialize-Chain g text c.tree in
    elim (Bool-cases (is_null chain)) [ inl e ↦ rw e whole | inr e ↦ rw e whole ]

si_chain_there :
    (g : Guest) (text : GuestText) (left tok : ℕ) (t : Optree)
    → is_null (si_chain g text (suc left) tok t).0 ≡ false
unfolding si_chain
si_chain_there g text left tok t = elim (Bool-cases ((stack_info g text tok t).1 == 0)) [
  | inl e ↦ rw e refl
  | inr e ↦ rw e refl
]

si_materialize_there :
    (g : Guest) (text : GuestText) (t : Optree)
    → (do_op g si_get 0 0 [] t.world).0 ≢ 0
    → is_null (si_materialize g text t).0 ≡ false
unfolding si_materialize
si_materialize_there g text t there =
    let asked = do_op g si_get 0 0 [] t.world in
    let other : (asked.0 == 0) ≡ false = ground arith in
    rw other (si_chain_there g text 16 asked.0 (record t { world = asked.1 }))

-- The read gives a chain if the interpreter has a current stack info.
abbrev pub GivesChain : Guest → Contexts → Option (List StackInfo) × Contexts → Type 0
GivesChain g c r =
    (do_op g si_get 0 0 [] c.tree.world).0 ≢ 0 → (chain : List StackInfo) × (r.0 ≡ some chain)

si_remade_there :
    (g : Guest) (text : GuestText) (c : Contexts) → GivesChain g c (si_remade g text c)
unfolding si_remade
si_remade_there g text c there =
    rw (si_materialize_there g text c.tree there) ((si_materialize g text c.tree).0, refl)

-- Where the cache has a chain of at most 17 infos, each with a token and as many contexts as its
-- `si_cxix` says, it has one behind a read of the current stack info. The read croaks, with no cache
-- left, or gives the chain in the cache; the next read then gives the same and calls nothing, so
-- `cxstack[cxstack_ix]` stays inside one array, and a read behind any operation makes the chain
-- anew. It does not croak where the interpreter, asked for
-- its current stack info, has one.
pub si_cur_lem :
    (g : Guest) (text : GuestText) (c : Contexts)
    → Chain si_depths c.si_cache
    → let r = si_cur g text c in Chain si_depths r.1.si_cache × Read g text r × GivesChain g c r
si_cur_lem g text c whole = elim (Bool-cases (cached c)) [
  | inl e ↦
      subst (λ r. Chain si_depths r.1.si_cache × Read g text r × GivesChain g c r)
        (sym (si_cur-cached g text c e))
        (
          whole,
          (
            refl,
            si_cur-cached g text c e,
            λ op a b s.
                si_cur-stale g text (after_op g op a b s c)
                  (cached-after_op g op a b s c (cached_now c e)),
          ),
          λ there. (c.si_cache, refl),
        )
  | inr e ↦
      subst (λ r. Chain si_depths r.1.si_cache × Read g text r × GivesChain g c r)
        (sym (si_cur-stale g text c e))
        (si_remade-Chain g text c, si_remade-Read g text c, si_remade_there g text c)
]
