-- ===== src/Optree/Clean.antt =====
-- The write-back of the op tree: what it sends, and that nothing is left to send behind it.
use go_perl.Prelude.{
  ℕ, Bool, true, false, Option, none, some, List, [], ◌∷◌, ◌==◌, ==_refl, ==_iff, ◌≡◌, ◌⊎◌, inl,
  inr, refl, sym, ap, ◌∙◌, All, Bool-cases, arith,
}
use mathlib.Core.Path.{subst}
use go_perl.Bridge.{Guest, World}
use go_perl.Optree.{
  OpBase, Op, Optree, write_op, captured, op_base_capture, Sent, sent, scratch_linked, write_field,
  write_fields, differs, perop_pp_register, Flushed, flushed, croaked, flush_end, flush_changes,
  op_flush_one, flush_chain,
}

-- Nothing to send for an op: it has no guest op or no baseline, or the baseline is what it holds.
abbrev pub IsClean : Op → Type 0
IsClean o = (o.gop ≡ 0) ⊎ (o.gop_base ≡ none) ⊎ (o.gop_base ≡ some (captured o))

abbrev pub AllClean : List (List ℕ) → Optree → Type 0
AllClean chains t = All (All (λ a. IsClean (t.ops a))) chains

write_fields-clean :
    (g : Guest) (ops : ℕ → Op) (o : Op) (w : World) → write_fields g ops o (captured o) w ≡ sent w
unfolding write_fields write_field captured
write_fields-clean g ops o w = simp ==_refl

-- The two states have the same ops, and the same world.
abbrev pub Same : Optree → Optree → Type 0
Same t t' = (t'.world ≡ t.world) × (t'.buckets ≡ t.buckets) × ((a : ℕ) → t'.ops a ≡ t.ops a)

capture_end :
    (g : Guest) (perop : Bool) (a : ℕ) (t : Optree)
    → flush_end g perop a
        (differs (captured (t.ops a)).op_ppaddr (t.ops a).op_ppaddr)
        t
        (sent t.world)
      ≡ flushed (op_base_capture a t)
unfolding flush_end captured
capture_end g perop a t = rw (==_refl (t.ops a).op_ppaddr) refl

flush_changes-clean :
    (g : Guest) (perop : Bool) (a : ℕ) (t : Optree) (b : Option OpBase)
    → b ≡ some (captured (t.ops a))
    → flush_changes g perop a t b ≡ flushed (op_base_capture a t)
unfolding flush_changes flush_end
flush_changes-clean g perop a t none h = absurd cc
flush_changes-clean g perop a t (some b) h =
    let same : b ≡ captured (t.ops a) = cc in
    ap (λ c. flush_changes g perop a t (some c)) same
    ∙ rw (flush_changes, write_fields-clean g t.ops (t.ops a) t.world) (capture_end g perop a t)

-- Taking a baseline again changes no op.
op_base_capture-clean :
    (a : ℕ) (t : Optree)
    → (t.ops a).gop_base ≡ some (captured (t.ops a))
    → (x : ℕ) → (op_base_capture a t).ops x ≡ t.ops x
unfolding op_base_capture write_op
op_base_capture-clean a t h x = elim (Bool-cases (x == a)) [
  | inl e ↦ rw e (
      ap {A = Option OpBase} {B = Op} (λ b. record (t.ops a) { gop_base = b }) (sym h)
      ∙ ap t.ops (sym ((==_iff x a).0 e)))
  | inr e ↦ rw e refl
]

pub op_flush_one-clean :
    (g : Guest) (perop : Bool) (a : ℕ) (t : Optree)
    → IsClean (t.ops a)
    → (t' : Optree) × (op_flush_one g perop a t ≡ flushed t') × Same t t'
unfolding op_flush_one flush_changes op_base_capture
op_flush_one-clean g perop a t (inl h) = (t, ground arith, (refl, refl, λ x. refl))
op_flush_one-clean g perop a t (inr (inl h)) = (t, rw h (ground arith), (refl, refl, λ x. refl))
op_flush_one-clean g perop a t (inr (inr h)) = elim (Bool-cases ((t.ops a).gop == 0)) [
  | inl e ↦ (t, rw e refl, (refl, refl, λ x. refl))
  | inr e ↦ (
    op_base_capture a t,
    rw e (flush_changes-clean g perop a t (t.ops a).gop_base h),
    (refl, refl, op_base_capture-clean a t h),
  )
]

-- What the write-back of one op leaves clean.
Settles : ℕ → Optree → Flushed → Type 0
Settles a t (croaked t') = Unit
Settles a t (flushed t') =
    IsClean (t'.ops a)
    × ((x : ℕ) → IsClean (t.ops x) → IsClean (t'.ops x))
    × (t'.buckets ≡ t.buckets)

write_op-IsClean :
    (a : ℕ) (o : Op) (ops : ℕ → Op) (x : ℕ)
    → (x ≡ a → IsClean o)
    → IsClean (ops x)
    → IsClean (write_op a o ops x)
unfolding write_op
write_op-IsClean a o ops x new old = elim (Bool-cases (x == a)) [
  | inl e ↦ rw e (new ((==_iff x a).0 e))
  | inr e ↦ rw e old
]

write_op_self : (a : ℕ) (o : Op) (ops : ℕ → Op) → IsClean o → IsClean (write_op a o ops a)
unfolding write_op
write_op_self a o ops h = rw (==_refl a) h

op_base_capture-Settles : (a : ℕ) (t : Optree) → Settles a t (flushed (op_base_capture a t))
unfolding Settles op_base_capture captured
op_base_capture-Settles a t =
    let o : Op = record (t.ops a) { gop_base = some (captured (t.ops a)) } in
    (
      write_op_self a o t.ops (inr (inr refl)),
      λ x h. write_op-IsClean a o t.ops x (λ e. inr (inr refl)) h,
      refl,
    )

perop_pp_register-keeps :
    (g : Guest) (a : ℕ) (t : Optree) (x : ℕ)
    → IsClean (t.ops x)
    → IsClean ((perop_pp_register g a t).ops x)
unfolding perop_pp_register captured
perop_pp_register-keeps g a t x h =
    let o : Op = record (t.ops a) { persist = true } in
    write_op-IsClean a o t.ops x (λ e. subst (λ y. IsClean (t.ops y)) e h) h

flush_end-Settles :
    (g : Guest) (perop : Bool) (a : ℕ) (hooked : Bool) (t : Optree) (r : Sent)
    → Settles a t (flush_end g perop a hooked t r)
unfolding flush_end Settles
flush_end-Settles g perop a hooked t (scratch_linked w) = tt
flush_end-Settles g perop a false t (sent w) = op_base_capture-Settles a (record t { world = w })
flush_end-Settles g false a true t (sent w) = tt
flush_end-Settles g true a true t (sent w) =
    let t' = perop_pp_register g a (record t { world = w }) in
    let s = op_base_capture-Settles a t' in
    (s.0, λ x h. s.1 x (perop_pp_register-keeps g a (record t { world = w }) x h), refl)

flush_changes-Settles :
    (g : Guest) (perop : Bool) (a : ℕ) (t : Optree) (b : Option OpBase)
    → (t.ops a).gop_base ≡ b
    → Settles a t (flush_changes g perop a t b)
unfolding flush_changes Settles
flush_changes-Settles g perop a t none h = (inr (inl h), λ x k. k, refl)
flush_changes-Settles g perop a t (some b) h =
    let o = t.ops a in
    flush_end-Settles g perop a (differs b.op_ppaddr o.op_ppaddr) t
      (write_fields g t.ops o b t.world)

op_flush_one-Settles :
    (g : Guest) (perop : Bool) (a : ℕ) (t : Optree) → Settles a t (op_flush_one g perop a t)
unfolding op_flush_one Settles
op_flush_one-Settles g perop a t = elim (Bool-cases ((t.ops a).gop == 0)) [
  | inl e ↦ rw e (inl ((==_iff (t.ops a).gop 0).0 e), λ x k. k, refl)
  | inr e ↦ rw e (flush_changes-Settles g perop a t (t.ops a).gop_base refl)
]

-- What the write-back of some ops leaves clean.
unfoldable pub SettlesAll : List ℕ → Optree → Flushed → Type 0
SettlesAll chain t (croaked t') = Unit
SettlesAll chain t (flushed t') =
    All (λ a. IsClean (t'.ops a)) chain
    × ((x : ℕ) → IsClean (t.ops x) → IsClean (t'.ops x))
    × (t'.buckets ≡ t.buckets)

SettlesAll-cons :
    (a : ℕ) (chain : List ℕ) (t t' : Optree) (r : Flushed)
    → Settles a t (flushed t')
    → SettlesAll chain t' r
    → SettlesAll (a ∷ chain) t r
unfolding SettlesAll Settles
SettlesAll-cons a chain t t' (croaked u) s h = tt
SettlesAll-cons a chain t t' (flushed u) s h = ((h.1 a s.0, h.0), λ x k. h.1 x (s.1 x k), h.2 ∙ s.2)

flush_chain_from-Settles :
    (g : Guest) (perop : Bool) (a : ℕ) (chain : List ℕ) (t : Optree) (r : Flushed)
    → Settles a t r
    → ((t' : Optree) → SettlesAll chain t' (flush_chain g perop chain (flushed t')))
    → SettlesAll (a ∷ chain) t (flush_chain g perop chain r)
unfolding flush_chain SettlesAll
flush_chain_from-Settles g perop a [] t (croaked t') s rest = tt
flush_chain_from-Settles g perop a (b ∷ chain) t (croaked t') s rest = tt
flush_chain_from-Settles g perop a chain t (flushed t') s rest =
    SettlesAll-cons a chain t t' (flush_chain g perop chain (flushed t')) s (rest t')

pub flush_chain-Settles :
    (g : Guest) (perop : Bool) (chain : List ℕ) (t : Optree)
    → SettlesAll chain t (flush_chain g perop chain (flushed t))
unfolding flush_chain SettlesAll
flush_chain-Settles g perop [] t = (tt, λ x k. k, refl)
flush_chain-Settles g perop (a ∷ chain) t =
    flush_chain_from-Settles g perop a chain t (op_flush_one g perop a t)
      (op_flush_one-Settles g perop a t) (flush_chain-Settles g perop chain)
