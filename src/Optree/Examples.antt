-- ===== src/Optree/Examples.antt =====
-- The theorems on the op tree at one op whose target the module changed.
use go_perl.Prelude.{
  ℕ, zero, suc, ◌≡◌, inl, refl, ap, arith, false, some, List, [], ◌∷◌, length, ◌<◌, All,
}
use go_perl.Bridge.{Guest}
use go_perl.Save.Examples.{quiet}
use go_perl.Optree.{
  Op, OpBase, Optree, sent, Flushed, flushed, croaked, write_fields, optree_flush, flush_chains,
  flush_chain, op_flush_one, flush_changes, flush_end, write_field, op_tok32, opf_targ, op_setfield,
}
use go_perl.Optree.Registry.{blank, opreg_buckets, op_shadow}
use go_perl.Optree.Registry.Identity.{op_shadow-Identified}
use go_perl.Optree.Clean.{Same}
use go_perl.Optree.Kept.{AllKept, IsWritten}
use go_perl.Optree.Quiet.{optree_flush_lem}
use go_perl.Optree.Sends.{write_fields_lem}

abbrev silent : Guest
silent = record { answer = λ log call. 0 }

abbrev before : OpBase
before = record {
  op_next = 0;
  op_sibparent = 0;
  op_moresib = 0;
  op_first = 0;
  op_last = 0;
  op_other = 0;
  op_ppaddr = 0;
  op_targ = 3;
  op_type = 0;
  op_flags = 0;
  op_private = 0;
}

-- The op of the token 64, with the target 4 where it had 3.
abbrev changed : Op
changed = record blank { gop = 64; gop_base = some before; op_targ = 4 }

abbrev pub tree : Optree
tree = record {
  world = quiet;
  ops = λ a. changed;
  buckets = (1 ∷ []) ∷ [];
  opext = [];
  next = 2;
  persist_mode = false;
  strings = [];
}

write_fields_lem_example :
    write_fields silent (λ a. changed) changed before quiet
    ≡ sent (op_setfield silent 64 opf_targ 4 quiet)
write_fields_lem_example =
    write_fields_lem silent (λ a. changed) changed before quiet (inl refl) (inl refl) (inl refl)
      (inl refl)

abbrev tree_of : Flushed → Optree
tree_of (flushed t) = t
tree_of (croaked t) = t

written : optree_flush silent false tree ≡ flushed (tree_of (optree_flush silent false tree))
unfolding optree_flush flush_chains flush_chain op_flush_one flush_changes flush_end write_fields
    write_field op_tok32
written = refl

optree_flush_lem_example :
    let t' = tree_of (optree_flush silent false tree) in
    All (All (λ a. IsWritten (tree.ops a) (t'.ops a))) tree.buckets
    × AllKept tree t'
    × ((t'' : Optree) × (optree_flush silent false t' ≡ flushed t'') × Same t' t'')
optree_flush_lem_example =
    optree_flush_lem silent false tree (tree_of (optree_flush silent false tree)) written

empties : ℕ → List (List ℕ)
empties zero = []
empties (suc n) = [] ∷ empties n

length-empties : (n : ℕ) → length (empties n) ≡ n
unfolding empties
length-empties zero = refl
length-empties (suc n) = ap suc (length-empties n)

-- A registry with no op in it.
abbrev bare : Optree
bare = record tree { buckets = empties opreg_buckets }

op_shadow-Identified_example :
    let r = op_shadow silent 64 bare in
    ((r.1.ops r.0).gop ≡ 64)
    × (op_shadow silent 64 r.1 ≡ r)
    × ((x : ℕ) → x < 2 → r.1.ops x ≡ changed)
op_shadow-Identified_example =
    op_shadow-Identified silent 64 bare (omega arith) (length-empties opreg_buckets) tt
