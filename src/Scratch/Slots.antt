-- ===== src/Scratch/Slots.antt =====
-- The search for a free slot, and what a saved destructor gets when it fires.
use go_perl.Prelude.{
  ℕ, zero, suc, ◌+◌, ◌-◌, ◌%◌, ◌<◌, ◌≤◌, ◌≡◌, ◌≢◌, refl, ap, sym, ◌∙◌, Bool, true, false, ◌||◌, not,
  Option, none, some, [], ltb, ◌==◌, if◌then◌else◌, get_or, set, length, arith, Bool-cases, inl,
  inr, length-set, choice-some, choice-none, get_or-set, get_or-set_other, ==_iff,
}
use go_perl.Bridge.{Guest}
use go_perl.Bridge.Op.{save_destructor}
use go_perl.Flush.{do_op}
use go_perl.Scratch.{
  dtor_max, Dtor, no_dtor, Tables, scan, dtor_free, save_destructor_x, dtor_invoke,
}

pub scan-some :
    (free : ℕ → Bool) (hint k left i : ℕ)
    → scan free hint k left ≡ some i
    → (free i ≡ true) × (i < dtor_max)
unfolding scan
scan-some free hint k zero i e = cc
scan-some free hint k (suc left) i e =
    elim (choice-some (free ((hint + k) % dtor_max)) _ (scan free hint (k + 1) left) e) [
      | inl (f, same) ↦ (ap free (sym same) ∙ f, omega (arith, same))
      | inr later ↦ scan-some free hint (k + 1) left i later
    ]

scan-none :
    (free : ℕ → Bool) (hint k left j : ℕ)
    → scan free hint k left ≡ none
    → k ≤ j
    → j < k + left
    → free ((hint + j) % dtor_max) ≡ false
unfolding scan
scan-none free hint k zero j e l h = absurd (omega arith)
scan-none free hint k (suc left) j e l h =
    let (here, later) =
      choice-none (free ((hint + k) % dtor_max)) _ (scan free hint (k + 1) left) e in
    elim (Bool-cases (k == j)) [
      | inl same ↦ ap (λ x. free ((hint + x) % dtor_max)) (sym ((==_iff k j).0 same)) ∙ here
      | inr other ↦ scan-none free hint (k + 1) left j later (ground arith) (omega arith)
    ]

-- The search fails only if no slot is free.
pub scan-full :
    (free : ℕ → Bool) (hint i : ℕ)
    → scan free hint 0 dtor_max ≡ none
    → i < dtor_max
    → free i ≡ false
scan-full free hint i e h =
    let j = (i + dtor_max - hint % dtor_max) % dtor_max in
    ap free (sym (reach hint i h)) ∙ scan-none free hint 0 dtor_max j e (omega arith) (omega arith)
  where
    reach : (a b : ℕ) → b < dtor_max → (a + (b + dtor_max - a % dtor_max) % dtor_max) % dtor_max ≡ b
    reach a b l = omega arith

-- What registering a destructor promises: it takes a free slot `id`, of which the interpreter is
-- told as `id + 1`; the callback of that number calls the function with its argument and frees the
-- slot, a second one calls nothing, and no other slot is touched.
pub record Fires (g : Guest) (fn arg : ℕ) (t t' : Tables) : Type 0 where
  pub id : ℕ
  pub was_free : (get_or t.dtors id no_dtor).used ≡ false
  pub told : t'.world ≡ (do_op g save_destructor (id + 1) 0 [] t.world).1
  pub call : (dtor_invoke (id + 1) t').0 ≡ some (fn, arg)
  pub again : (dtor_invoke (id + 1) (dtor_invoke (id + 1) t').1).0 ≡ none
  pub others :
      (j : ℕ)
      → id ≢ j
      → (get_or t'.dtors j no_dtor ≡ get_or t.dtors j no_dtor)
        × (get_or (dtor_invoke (id + 1) t').1.dtors j no_dtor ≡ get_or t.dtors j no_dtor)
  pub size : length t'.dtors ≡ dtor_max

is_free : (t : Tables) (i : ℕ) → dtor_free t i ≡ true → (get_or t.dtors i no_dtor).used ≡ false
unfolding dtor_free
is_free t i e = ground arith

not_free : (t : Tables) (i : ℕ) → dtor_free t i ≡ false → (get_or t.dtors i no_dtor).used ≡ true
unfolding dtor_free
not_free t i e = ground arith

pair_if :
    {A B : Type 0} (b : Bool) (x y : A) (r : B)
    → ◌≡◌ {A = A × B} (if b then (x, r) else (y, r)) (if b then x else y, r)
pair_if true x y r = refl
pair_if false x y r = refl

calls_it :
    (fn arg : ℕ)
    → fn ≢ 0
    → ◌≡◌ {A = Option (ℕ × ℕ)} (if fn == 0 then none else some (fn, arg)) (some (fn, arg))
calls_it fn arg real = ground arith

-- A callback in range, by what its slot holds.
invoke-slot :
    (id : ℕ) (t : Tables) (d : Dtor)
    → id < dtor_max
    → get_or t.dtors id no_dtor ≡ d
    → dtor_invoke (id + 1) t ≡ (
      if not d.used || d.fn == 0 then none else some (d.fn, d.arg),
      record t { dtors = set t.dtors id (record d { used = false }) },
    )
unfolding dtor_invoke
invoke-slot id t d below at =
    let back : id + 1 - 1 ≡ id = omega arith in
    let inside : (id + 1 == 0 || ltb dtor_max (id + 1)) ≡ false = ground arith in
    rw (back, inside, at) (pair_if (not d.used || d.fn == 0) none (some (d.fn, d.arg)) _)

fires :
    (g : Guest) (fn arg : ℕ) (t : Tables) (id : ℕ)
    → length t.dtors ≡ dtor_max
    → fn ≢ 0
    → (get_or t.dtors id no_dtor).used ≡ false
    → id < dtor_max
    → Fires g fn arg t (record t {
      dtor_hint = id + 1;
      dtors = set t.dtors id (record { fn = fn; arg = arg; used = true });
      world = (do_op g save_destructor (id + 1) 0 [] t.world).1;
    })
fires g fn arg t id size real free below =
    let slot : Dtor = record { fn = fn; arg = arg; used = true } in
    let done : Dtor = record { fn = fn; arg = arg; used = false } in
    let ds = set t.dtors id slot in
    let t' : Tables = record t {
      dtor_hint = id + 1;
      dtors = ds;
      world = (do_op g save_destructor (id + 1) 0 [] t.world).1;
    } in
    let t1 : Tables = record t' { dtors = set ds id done } in
    let wide : id < length ds = omega (arith, length-set t.dtors id slot) in
    let first = invoke-slot id t' slot below (get_or-set t.dtors id slot no_dtor (omega arith)) in
    let second = invoke-slot id t1 done below (get_or-set ds id done no_dtor wide) in
    record {
      id = id;
      was_free = free;
      told = refl;
      call = ap (λ p. p.0) first ∙ calls_it fn arg real;
      again = ap (λ p. (dtor_invoke (id + 1) p.1).0) first ∙ ap (λ p. p.0) second;
      others = λ j ne. (
        get_or-set_other t.dtors id j slot no_dtor ne,
        ap (λ p. get_or p.1.dtors j no_dtor) first
            ∙ get_or-set_other ds id j done no_dtor ne
            ∙ get_or-set_other t.dtors id j slot no_dtor ne,
      );
      size = length-set t.dtors id slot ∙ size;
    }

-- The result of `save_destructor_x`: a croak happens only if every slot is in use.
abbrev pub Saved : Guest → ℕ → ℕ → Tables → Option Tables → Type 0
Saved g fn arg t none = (i : ℕ) → i < dtor_max → (get_or t.dtors i no_dtor).used ≡ true
Saved g fn arg t (some t') = Fires g fn arg t t'

-- On a table of the declared size, a destructor that is registered fires once, with its argument,
-- under the number that the interpreter is told, without a change to any other slot; registering
-- croaks only if all slots are in use.
pub save_destructor_x_lem :
    (g : Guest) (fn arg : ℕ) (t : Tables)
    → length t.dtors ≡ dtor_max
    → fn ≢ 0
    → Saved g fn arg t (save_destructor_x g fn arg t)
unfolding save_destructor_x
save_destructor_x_lem g fn arg t size real = go (scan (dtor_free t) t.dtor_hint 0 dtor_max) refl
  where
    go :
        (r : Option ℕ)
        → scan (dtor_free t) t.dtor_hint 0 dtor_max ≡ r
        → Saved g fn arg t (elim r [
          | none ↦ none
          | some id ↦ some (record t {
            dtor_hint = id + 1;
            dtors = set t.dtors id (record { fn = fn; arg = arg; used = true });
            world = (do_op g save_destructor (id + 1) 0 [] t.world).1;
          })
        ])
    go none e = λ i h. not_free t i (scan-full (dtor_free t) t.dtor_hint i e h)
    go (some id) e =
        let (free, below) = scan-some (dtor_free t) t.dtor_hint 0 dtor_max id e in
        fires g fn arg t id size real (is_free t id free) below
