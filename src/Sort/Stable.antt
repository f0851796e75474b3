-- ===== src/Sort/Stable.antt =====
-- The sort orders the array, permutes it, and keeps equal elements in their order.
use mathlib.Core.List.{Perm, append-nil, perm_middle}
use mathlib.Core.List.Perm
use go_perl.Prelude.{
  ℕ, ◌≡◌, refl, sym, ap, ◌∙◌, inl, inr, Bool, true, false, ◌&&◌, not, List, [], ◌∷◌, ◌++◌, length,
  if◌then◌else◌, Bool-cases, All, arith,
}
use go_perl.Sort.{sortsv}
use go_perl.Sort.Zipper.{onto, insert, insert_all, sortsv_lem}

-- What a comparison function promises: a greater element is not smaller, and not being greater is
-- transitive.
pub record IsOrder (gt : ℕ → ℕ → Bool) : Type 0 where
  pub asym : (a b : ℕ) → gt a b ≡ true → gt b a ≡ false
  pub le_trans : (a b c : ℕ) → gt a b ≡ false → gt b c ≡ false → gt a c ≡ false

-- No element is greater than a later one.
abbrev pub IsSorted : (ℕ → ℕ → Bool) → List ℕ → Type 0
IsSorted gt [] = Unit
IsSorted gt (x ∷ l) = All (λ y. gt x y ≡ false) l × IsSorted gt l

-- The elements that are equal to `c` in the order, as they follow one another.
abbrev same : (ℕ → ℕ → Bool) → ℕ → ℕ → Bool
same gt c x = not (gt x c) && not (gt c x)

pub equals : (ℕ → ℕ → Bool) → ℕ → List ℕ → List ℕ
equals gt c [] = []
equals gt c (x ∷ l) = if same gt c x then x ∷ equals gt c l else equals gt c l

-- The sorted part held backwards: no element is smaller than one behind it.
abbrev Falling : (ℕ → ℕ → Bool) → List ℕ → Type 0
Falling gt [] = Unit
Falling gt (x ∷ r) = All (λ b. gt b x ≡ false) r × Falling gt r

All-map : {P Q : ℕ → Type 0} → ((x : ℕ) → P x → Q x) → (l : List ℕ) → All P l → All Q l
All-map f [] h = tt
All-map f (x ∷ l) h = (f x h.0, All-map f l h.1)

All-insert :
    (P : ℕ → Type 0) (gt : ℕ → ℕ → Bool) (key : ℕ) (r : List ℕ)
    → P key
    → All P r
    → All P (insert gt key r)
unfolding insert
All-insert P gt key [] k h = (k, tt)
All-insert P gt key (x ∷ r) k h = elim (Bool-cases (gt x key)) [
  | inl e ↦ rw e (h.0, All-insert P gt key r k h.1)
  | inr e ↦ rw e (k, h)
]

insert-Falling :
    {gt : ℕ → ℕ → Bool}
    → IsOrder gt
    → (key : ℕ) (r : List ℕ) → Falling gt r
    → Falling gt (insert gt key r)
unfolding insert
insert-Falling o key [] h = (tt, tt)
insert-Falling {gt} o key (x ∷ r) h = elim (Bool-cases (gt x key)) [
  | inl e ↦
      rw e
        (All-insert (λ b. gt b x ≡ false) gt key r (o.asym x key e) h.0, insert-Falling o key r h.1)
  | inr e ↦ rw e ((e, All-map (λ b le. o.le_trans b x key le e) r h.0), h)
]

insert_all-Falling :
    {gt : ℕ → ℕ → Bool}
    → IsOrder gt
    → (r todo : List ℕ) → Falling gt r
    → Falling gt (insert_all gt r todo)
unfolding insert_all
insert_all-Falling o r [] h = h
insert_all-Falling {gt} o r (x ∷ todo) h =
    insert_all-Falling o (insert gt x r) todo (insert-Falling o x r h)

All-cons_each :
    (gt : ℕ → ℕ → Bool) (x : ℕ) (l r : List ℕ)
    → All (λ b. gt b x ≡ false) r
    → All (λ b. All (λ y. gt b y ≡ false) l) r
    → All (λ b. All (λ y. gt b y ≡ false) (x ∷ l)) r
All-cons_each gt x l [] h k = tt
All-cons_each gt x l (b ∷ r) h k = ((h.0, k.0), All-cons_each gt x l r h.1 k.1)

onto-IsSorted :
    (gt : ℕ → ℕ → Bool) (r l : List ℕ)
    → Falling gt r
    → IsSorted gt l
    → All (λ b. All (λ y. gt b y ≡ false) l) r
    → IsSorted gt (onto r l)
onto-IsSorted gt [] l h s k = s
onto-IsSorted gt (x ∷ r) l h s k =
    onto-IsSorted gt r (x ∷ l) h.1 (k.0, s) (All-cons_each gt x l r h.0 k.1)

none_later : (gt : ℕ → ℕ → Bool) (r : List ℕ) → All (λ b. All (λ y. gt b y ≡ false) []) r
none_later gt [] = tt
none_later gt (b ∷ r) = (tt, none_later gt r)

insert-perm : (gt : ℕ → ℕ → Bool) (key : ℕ) (r : List ℕ) → Perm (insert gt key r) (key ∷ r)
unfolding insert
insert-perm gt key [] = Perm.refl (key ∷ [])
insert-perm gt key (x ∷ r) = elim (Bool-cases (gt x key)) [
  | inl e ↦ rw e (Perm.trans (Perm.cons x (insert-perm gt key r)) (Perm.swap key x r))
  | inr e ↦ rw e (Perm.refl (key ∷ x ∷ r))
]

insert_all-perm : (gt : ℕ → ℕ → Bool) (r todo : List ℕ) → Perm (insert_all gt r todo) (todo ++ r)
unfolding insert_all
insert_all-perm gt r [] = Perm.refl r
insert_all-perm gt r (x ∷ todo) =
    Perm.trans (insert_all-perm gt (insert gt x r) todo)
      (Perm.trans (Perm.append_left todo (insert-perm gt x r)) (perm_middle todo r))

onto-perm : (r l : List ℕ) → Perm (onto r l) (r ++ l)
onto-perm [] l = Perm.refl l
onto-perm (x ∷ r) l = Perm.trans (onto-perm r (x ∷ l)) (perm_middle r l)

same_apart :
    {gt : ℕ → ℕ → Bool}
    → IsOrder gt
    → (c x key : ℕ) → gt x key ≡ true
    → same gt c x ≡ true
    → same gt c key ≡ false
same_apart {gt} o c x key e h = elim (Bool-cases (gt c key)) [
  | inl g ↦ rw g (ground arith)
  | inr g ↦ let low : gt x c ≡ false = ground arith in cc (o.le_trans x c key low g)
]

equals-insert :
    {gt : ℕ → ℕ → Bool}
    → IsOrder gt
    → (c key : ℕ) (r : List ℕ) → equals gt c (insert gt key r) ≡ equals gt c (key ∷ r)
unfolding insert equals
equals-insert o c key [] = refl
equals-insert {gt} o c key (x ∷ r) = elim (Bool-cases (gt x key)) [
  | inl e ↦ elim (Bool-cases (same gt c x)) [
    | inl h ↦
        let other = same_apart o c x key e h in
        rw (e, h, other) (ap (λ l. x ∷ l) (rw other at (equals-insert o c key r)))
    | inr h ↦ rw (e, h) (equals-insert o c key r)
  ]
  | inr e ↦ rw e refl
]

equals-onto :
    (gt : ℕ → ℕ → Bool) (c : ℕ) (r l : List ℕ)
    → equals gt c (onto r l) ≡ onto (equals gt c r) (equals gt c l)
unfolding equals
equals-onto gt c [] l = refl
equals-onto gt c (x ∷ r) l = elim (Bool-cases (same gt c x)) [
  | inl h ↦ equals-onto gt c r (x ∷ l) ∙ rw h refl
  | inr h ↦ equals-onto gt c r (x ∷ l) ∙ rw h refl
]

equals-insert_all :
    {gt : ℕ → ℕ → Bool}
    → IsOrder gt
    → (c : ℕ) (r todo : List ℕ)
    → equals gt c (onto (insert_all gt r todo) []) ≡ equals gt c (onto r todo)
unfolding insert_all
equals-insert_all o c r [] = refl
equals-insert_all {gt} o c r (x ∷ todo) =
    equals-insert_all o c (insert gt x r) todo
    ∙ equals-onto gt c (insert gt x r) todo
    ∙ ap (λ l. onto l (equals gt c todo)) (equals-insert o c x r)
    ∙ sym (equals-onto gt c (x ∷ r) todo)

onto-append : (r l rest : List ℕ) → onto r l ++ rest ≡ onto r (l ++ rest)
onto-append [] l rest = refl
onto-append (x ∷ r) l rest = onto-append r (x ∷ l) rest

-- For a comparison that is an order, the sort of the first `length array` elements leaves the rest
-- of the memory as it was, and puts there an array in which no element is greater than a later
-- one, with the same elements, and in which those that are equal to any given one follow one
-- another as before.
pub sortsv-IsSorted :
    (gt : ℕ → ℕ → Bool) (array rest : List ℕ)
    → IsOrder gt
    → (sorted : List ℕ) × (sortsv gt (length array) (array ++ rest) ≡ sorted ++ rest)
      × IsSorted gt sorted
      × Perm sorted array
      × ((c : ℕ) → equals gt c sorted ≡ equals gt c array)
sortsv-IsSorted gt array rest o =
    let r = insert_all gt [] array in
    (
      onto r [],
      sortsv_lem gt array rest ∙ sym (onto-append r [] rest),
      onto-IsSorted gt r [] (insert_all-Falling o [] array tt) tt (none_later gt r),
      Perm.trans (onto-perm r []) (
          Perm.trans (Perm.append_right [] (insert_all-perm gt [] array))
            (rw (append-nil (array ++ []), append-nil array) (Perm.refl array))),
      λ c. equals-insert_all o c [] array,
    )
