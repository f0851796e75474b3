-- ===== src/Optree/Kept.antt =====
-- What a write-back of the op tree does to the baselines: it takes them anew and drops none.
use mathlib.Core.Path.{subst}
use go_perl.Prelude.{
  ℕ, Bool, true, false, Option, none, some, List, [], ◌∷◌, ◌==◌, ==_refl, ==_iff, ◌≡◌, ◌≢◌, ◌⊎◌,
  inl, inr, refl, sym, ap, ◌∙◌, Bool-cases,
}
use go_perl.Bridge.{Guest}
use go_perl.Optree.{
  OpBase, Op, Optree, write_op, captured, op_base_capture, Sent, sent, scratch_linked, write_fields,
  differs, perop_pp_register, Flushed, flushed, croaked, flush_end, flush_changes, op_flush_one,
  flush_chain, flush_chains,
}
use go_perl.Optree.Clean.{IsClean}

-- An op before and after: the fields that can be written back and the token are as before, and the
-- baseline is either as before too, or it was there, and is what the op of a token holds.
abbrev pub Kept : Op → Op → Type 0
Kept o o' =
    (captured o' ≡ captured o)
    × (o'.gop ≡ o.gop)
    × ((o'.gop_base ≡ o.gop_base)
        ⊎ ((o.gop ≢ 0) × (o.gop_base ≢ none) × (o'.gop_base ≡ some (captured o))))

abbrev pub AllKept : Optree → Optree → Type 0
AllKept t t' = (x : ℕ) → Kept (t.ops x) (t'.ops x)

-- Behind the write-back the op has no token, had no baseline, or its baseline is what it held.
abbrev pub IsWritten : Op → Op → Type 0
IsWritten o o' = (o.gop ≡ 0) ⊎ (o.gop_base ≡ none) ⊎ (o'.gop_base ≡ some (captured o))

pub Kept-IsWritten : (o o' : Op) → Kept o o' → IsClean o' → IsWritten o o'
Kept-IsWritten o o' (holds, gop, base) (inl h) = inl (sym gop ∙ h)
Kept-IsWritten o o' (holds, gop, inl same) (inr (inl h)) = inr (inl (sym same ∙ h))
Kept-IsWritten o o' (holds, gop, inr (a, b, is)) (inr (inl h)) = inr (inr is)
Kept-IsWritten o o' (holds, gop, base) (inr (inr h)) =
    inr (inr (h ∙ ap {A = OpBase} {B = Option OpBase} (λ c. some c) holds))

Kept-refl : (o : Op) → Kept o o
Kept-refl o = (refl, refl, inl refl)

Kept-trans : (o p q : Op) → Kept o p → Kept p q → Kept o q
Kept-trans o p q (h, k, inl e) (h', k', inl e') = (h' ∙ h, k' ∙ k, inl (e' ∙ e))
Kept-trans o p q (h, k, inr (a, b, e)) (h', k', inl e') = (h' ∙ h, k' ∙ k, inr (a, b, e' ∙ e))
Kept-trans o p q (h, k, inl e) (h', k', inr (a, b, e')) = (
  h' ∙ h,
  k' ∙ k,
  inr (
    (λ z. a (k ∙ z)),
    (λ z. b (e ∙ z)),
    e' ∙ ap {A = OpBase} {B = Option OpBase} (λ c. some c) h,
  ),
)
Kept-trans o p q (h, k, inr (a, b, e)) (h', k', inr (a', b', e')) =
    (h' ∙ h, k' ∙ k, inr (a, b, e' ∙ ap {A = OpBase} {B = Option OpBase} (λ c. some c) h))

-- A store of an op that keeps the one at its address.
write_op-Kept :
    (a : ℕ) (o : Op) (ops : ℕ → Op) → Kept (ops a) o → (x : ℕ) → Kept (ops x) (write_op a o ops x)
unfolding write_op
write_op-Kept a o ops new x = elim (Bool-cases (x == a)) [
  | inl e ↦ rw e (subst (λ y. Kept (ops y) o) (sym ((==_iff x a).0 e)) new)
  | inr e ↦ rw e (Kept-refl (ops x))
]

op_base_capture-Kept :
    (a : ℕ) (t : Optree)
    → (t.ops a).gop ≢ 0
    → (t.ops a).gop_base ≢ none
    → AllKept t (op_base_capture a t)
unfolding op_base_capture captured
op_base_capture-Kept a t token base =
    write_op-Kept a (record (t.ops a) { gop_base = some (captured (t.ops a)) }) t.ops
      (refl, refl, inr (token, base, refl))

perop_pp_register-Kept : (g : Guest) (a : ℕ) (t : Optree) → AllKept t (perop_pp_register g a t)
unfolding perop_pp_register captured
perop_pp_register-Kept g a t =
    write_op-Kept a (record (t.ops a) { persist = true }) t.ops (refl, refl, inl refl)

perop_pp_register-base :
    (g : Guest) (a : ℕ) (t : Optree)
    → ((perop_pp_register g a t).ops a).gop_base ≡ (t.ops a).gop_base
unfolding perop_pp_register write_op
perop_pp_register-base g a t = rw (==_refl a) refl

-- The end of a write-back that did not croak keeps all ops.
KeptBy : Optree → Flushed → Type 0
KeptBy t (croaked t') = Unit
KeptBy t (flushed t') = AllKept t t'

flush_end-KeptBy :
    (g : Guest) (perop : Bool) (a : ℕ) (hooked : Bool) (t : Optree) (r : Sent)
    → (t.ops a).gop ≢ 0
    → (t.ops a).gop_base ≢ none
    → KeptBy t (flush_end g perop a hooked t r)
unfolding flush_end KeptBy
flush_end-KeptBy g perop a hooked t (scratch_linked w) token base = tt
flush_end-KeptBy g perop a false t (sent w) token base =
    op_base_capture-Kept a (record t { world = w }) token base
flush_end-KeptBy g false a true t (sent w) token base = tt
flush_end-KeptBy g true a true t (sent w) token base =
    let t₁ = record t { world = w } in
    let t₂ = perop_pp_register g a t₁ in
    let kept = perop_pp_register-Kept g a t₁ in
    λ x. Kept-trans (t.ops x) (t₂.ops x) ((op_base_capture a t₂).ops x) (kept x) (
      op_base_capture-Kept a t₂ (λ z. token (sym (kept a).1 ∙ z))
        (λ z. base (sym (perop_pp_register-base g a t₁) ∙ z)) x)

flush_changes-KeptBy :
    (g : Guest) (perop : Bool) (a : ℕ) (t : Optree) (b : Option OpBase)
    → (t.ops a).gop ≢ 0
    → (t.ops a).gop_base ≡ b
    → KeptBy t (flush_changes g perop a t b)
unfolding flush_changes KeptBy
flush_changes-KeptBy g perop a t none token is = λ x. Kept-refl (t.ops x)
flush_changes-KeptBy g perop a t (some b) token is =
    let o = t.ops a in
    flush_end-KeptBy g perop a (differs b.op_ppaddr o.op_ppaddr) t
      (write_fields g t.ops o b t.world) token (λ z. some_none b (sym is ∙ z))
  where
    some_none : (c : OpBase) → some c ≢ none
    some_none c e = cc

op_flush_one-KeptBy :
    (g : Guest) (perop : Bool) (a : ℕ) (t : Optree) → KeptBy t (op_flush_one g perop a t)
unfolding op_flush_one KeptBy
op_flush_one-KeptBy g perop a t = elim (Bool-cases ((t.ops a).gop == 0)) [
  | inl e ↦ rw e (λ x. Kept-refl (t.ops x))
  | inr e ↦ rw e (
      flush_changes-KeptBy g perop a t (t.ops a).gop_base
        (λ z. cc_false (sym e ∙ (==_iff (t.ops a).gop 0).1 z)) refl)
]
  where
    cc_false : false ≢ true
    cc_false e = cc

KeptBy-trans : (t u : Optree) (r : Flushed) → AllKept t u → KeptBy u r → KeptBy t r
unfolding KeptBy
KeptBy-trans t u (croaked v) h k = tt
KeptBy-trans t u (flushed v) h k = λ x. Kept-trans (t.ops x) (u.ops x) (v.ops x) (h x) (k x)

flush_chain-KeptBy :
    (g : Guest) (perop : Bool) (chain : List ℕ) (t : Optree) (r : Flushed)
    → KeptBy t r
    → KeptBy t (flush_chain g perop chain r)
unfolding flush_chain KeptBy
flush_chain-KeptBy g perop [] t (croaked u) h = tt
flush_chain-KeptBy g perop (a ∷ chain) t (croaked u) h = tt
flush_chain-KeptBy g perop [] t (flushed u) h = h
flush_chain-KeptBy g perop (a ∷ chain) t (flushed u) h =
    flush_chain-KeptBy g perop chain t (op_flush_one g perop a u)
      (KeptBy-trans t u (op_flush_one g perop a u) h (op_flush_one-KeptBy g perop a u))

flush_chains-AllKept :
    (g : Guest) (perop : Bool) (chains : List (List ℕ)) (t t' : Optree) (r : Flushed)
    → KeptBy t r
    → flush_chains g perop chains r ≡ flushed t'
    → AllKept t t'
unfolding flush_chains
flush_chains-AllKept g perop [] t t' r h e = unfold KeptBy in subst (KeptBy t) e h
flush_chains-AllKept g perop (chain ∷ chains) t t' r h e =
    flush_chains-AllKept g perop chains t t' (flush_chain g perop chain r)
      (flush_chain-KeptBy g perop chain t r h) e

pub flush_chains_keeps :
    (g : Guest) (perop : Bool) (chains : List (List ℕ)) (t t' : Optree)
    → flush_chains g perop chains (flushed t) ≡ flushed t'
    → AllKept t t'
unfolding KeptBy
flush_chains_keeps g perop chains t t' e =
    flush_chains-AllKept g perop chains t t' (flushed t) (λ x. Kept-refl (t.ops x)) e
