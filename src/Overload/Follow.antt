-- ===== src/Overload/Follow.antt =====
-- Where the following of overloaded dereferences ends.
use go_perl.Prelude.{
  ℕ, zero, suc, ◌<◌, ◌≡◌, ◌≢◌, refl, ap, ◌∙◌, inl, inr, true, false, Option, none, some, [], ◌==◌,
  if◌then◌else◌, arith, Bool-cases, ==_refl,
}
use go_perl.Bridge.{Guest, Log, World, xs_op}
use go_perl.Bridge.Op.{sv_amagic, amagic_call, sv_rv}
use go_perl.Flush.{do_op}
use go_perl.Overload.{
  Dereffed, dereffed, no_reference, amgf_unary_noright, amagic_operand, deref_loop,
  amagic_deref_call,
}

-- The objects of the interpreter, whatever is called in between: whether the dereference of one is
-- overloaded, what the method gives for it, and what it refers to.
pub record Objects : Type 0 where
  pub overloaded : ℕ → ℕ
  pub result : ℕ → ℕ
  pub target : ℕ → ℕ

pub record Answers (g : Guest) (method : ℕ) (o : Objects) : Type 0 where
  pub overloaded :
      (log : Log) (ref : ℕ) → g.answer log (xs_op sv_amagic ref 0 []) ≡ o.overloaded ref
  pub result :
      (log : Log) (ref : ℕ)
      → g.answer log (xs_op amagic_call (amagic_operand method ref) amgf_unary_noright [])
        ≡ o.result ref
  pub target : (log : Log) (ref : ℕ) → g.answer log (xs_op sv_rv ref 0 []) ≡ o.target ref

-- The object after `n` calls of the method.
abbrev pub follow : Objects → ℕ → ℕ → ℕ
follow o zero ref = ref
follow o (suc n) ref = follow o n (o.result ref)

-- A step that the loop goes on after: the object is overloaded, and the method gives another
-- reference, to another place.
pub record Goes (o : Objects) (ref : ℕ) : Type 0 where
  pub overloaded : o.overloaded ref ≢ 0
  pub real : o.result ref ≢ 0
  pub reference : o.target (o.result ref) ≢ 0
  pub moves : o.target (o.result ref) ≢ o.target ref

-- The three ways to end with an SV, and the croak: the object is not overloaded; the method gives
-- nothing; it gives no reference; it gives a reference to the same place.
pub data Ends (o : Objects) : ℕ → Option ℕ → Type 0 where
  plain : (ref : ℕ) → o.overloaded ref ≡ 0 → Ends o ref (some ref)
  declined : (ref : ℕ) → o.overloaded ref ≢ 0 → o.result ref ≡ 0 → Ends o ref (some ref)
  not_a_reference :
      (ref : ℕ)
      → o.overloaded ref ≢ 0
      → o.result ref ≢ 0
      → o.target (o.result ref) ≡ 0
      → Ends o ref none
  same_place :
      (ref r : ℕ)
      → o.result ref ≡ r
      → o.overloaded ref ≢ 0
      → r ≢ 0
      → o.target r ≢ 0
      → o.target r ≡ o.target ref
      → Ends o ref (some r)

abbrev pub ended : Option ℕ → World → Dereffed
ended (some x) w = dereffed x w
ended none w = no_reference w

nonzero : (n : ℕ) → n ≢ 0 → (n == 0) ≡ false
nonzero n h = ground arith

differ : (a b : ℕ) → a ≢ b → (a == b) ≡ false
differ a b h = ground arith

module _ (g : Guest) (method : ℕ) (o : Objects) (answers : Answers g method o) where
  says_overloaded : (ref : ℕ) (w : World) → (do_op g sv_amagic ref 0 [] w).0 ≡ o.overloaded ref
  unfolding do_op
  says_overloaded ref w = answers.overloaded _ ref

  says_result :
      (ref : ℕ) (w : World)
      → (do_op g amagic_call (amagic_operand method ref) amgf_unary_noright [] w).0 ≡ o.result ref
  unfolding do_op
  says_result ref w = answers.result _ ref

  says_target : (ref : ℕ) (w : World) → (do_op g sv_rv ref 0 [] w).0 ≡ o.target ref
  unfolding do_op
  says_target ref w = answers.target _ ref

  -- One round that goes on.
  deref_loop-Goes :
      (left tmpsv ref : ℕ) (w : World)
      → Goes o ref
      → (w' : World) × (deref_loop g method (suc left) tmpsv ref w
          ≡ deref_loop g method left (o.result ref) (o.result ref) w')
  unfolding deref_loop
  deref_loop-Goes left tmpsv ref w goes =
      let other : o.result ref ≢ ref = λ same. goes.moves (ap o.target same) in
      rw
        (
          says_overloaded ref w,
          nonzero (o.overloaded ref) goes.overloaded,
          says_result ref,
          nonzero (o.result ref) goes.real,
          says_target (o.result ref),
          says_target (o.result ref),
          says_target ref,
          nonzero (o.target (o.result ref)) goes.reference,
          differ (o.result ref) ref other,
          differ (o.target (o.result ref)) (o.target ref) goes.moves,
        )
        (_, refl)

  -- The last round.
  deref_loop-Ends :
      (left tmpsv ref : ℕ) (end : Option ℕ) (w : World)
      → (if tmpsv == 0 then ref else tmpsv) ≡ ref
      → Ends o ref end
      → (w' : World) × (deref_loop g method (suc left) tmpsv ref w ≡ some (ended end w'))
  unfolding deref_loop
  deref_loop-Ends left tmpsv ref end w here (plain x is) =
      rw (says_overloaded x w, is, here) (_, refl)
  deref_loop-Ends left tmpsv ref end w here (declined x over null) =
      rw (says_overloaded x w, nonzero (o.overloaded x) over, says_result x, null, here) (_, refl)
  deref_loop-Ends left tmpsv ref end w here (not_a_reference x over real null) =
      rw
        (
          says_overloaded x w,
          nonzero (o.overloaded x) over,
          says_result x,
          nonzero (o.result x) real,
          says_target (o.result x),
          null,
        )
        (_, refl)
  deref_loop-Ends left tmpsv ref end w here (same_place x r is over real refers same) =
      let there : (o.target x == o.target x) ≡ true = ==_refl (o.target x) in
      elim (Bool-cases (r == x)) [
        | inl q ↦
            rw
              (
                says_overloaded x w,
                nonzero (o.overloaded x) over,
                says_result x,
                is,
                nonzero r real,
                says_target r,
                nonzero (o.target r) refers,
                q,
              )
              (_, refl)
        | inr q ↦
            rw
              (
                says_overloaded x w,
                nonzero (o.overloaded x) over,
                says_result x,
                is,
                nonzero r real,
                says_target r,
                says_target r,
                says_target x,
                nonzero (o.target r) refers,
                q,
                same,
                there,
              )
              (_, refl)
      ]

  deref_loop-follow :
      (n left tmpsv ref : ℕ) (end : Option ℕ) (w : World)
      → (if tmpsv == 0 then ref else tmpsv) ≡ ref
      → ((i : ℕ) → i < n → Goes o (follow o i ref))
      → Ends o (follow o n ref) end
      → n < left
      → (w' : World) × (deref_loop g method left tmpsv ref w ≡ some (ended end w'))
  deref_loop-follow n zero tmpsv ref end w here goes ends fuel = absurd (omega arith)
  deref_loop-follow zero (suc left) tmpsv ref end w here goes ends fuel =
      deref_loop-Ends left tmpsv ref end w here ends
  deref_loop-follow (suc n) (suc left) tmpsv ref end w here goes ends fuel =
      let (w₁, step) = deref_loop-Goes left tmpsv ref w (goes 0 (omega arith)) in
      let again : (if o.result ref == 0 then o.result ref else o.result ref) ≡ o.result ref =
        ground arith in
      let (w', rest) =
        deref_loop-follow n left (o.result ref) (o.result ref) end w₁ again
          (λ i less. goes (suc i) (omega arith)) ends (omega arith) in
      (w', step ∙ rest)

-- Where the objects of the interpreter stay as they are during the calls: if the loop goes on for
-- `n` objects, and the one that `n` calls of the method lead to ends it, then with fuel for more
-- than `n` rounds the dereference ends as that object says. It gives it, if it is not overloaded or
-- its method gives nothing; what its method gives, if that refers to the same place; and a croak, if
-- that is no reference.
pub amagic_deref_call-Ends :
    (g : Guest) (method : ℕ) (o : Objects) (n fuel ref : ℕ) (end : Option ℕ) (w : World)
    → Answers g method o
    → ((i : ℕ) → i < n → Goes o (follow o i ref))
    → Ends o (follow o n ref) end
    → n < fuel
    → (w' : World) × (amagic_deref_call g method fuel ref w ≡ some (ended end w'))
unfolding amagic_deref_call
amagic_deref_call-Ends g method o n fuel ref end w answers goes ends enough =
    deref_loop-follow g method o answers n fuel 0 ref end w refl goes ends enough
