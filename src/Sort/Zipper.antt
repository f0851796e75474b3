-- ===== src/Sort/Zipper.antt =====
-- The sort of an array as insertions into the part that is sorted, held backwards.
use go_perl.Prelude.{
  ℕ, suc, ◌+◌, ◌-◌, ◌≡◌, refl, sym, ap, ◌∙◌, inl, inr, Bool, List, [], ◌∷◌, ◌++◌, get_or, set,
  length, if◌then◌else◌, Bool-cases, arith,
}
use go_perl.Sort.{shift, insert_from, sortsv}

-- The array whose first part is `r` backwards.
abbrev pub onto : List ℕ → List ℕ → List ℕ
onto [] l = l
onto (x ∷ r) l = onto r (x ∷ l)

unfoldable pub insert : (ℕ → ℕ → Bool) → ℕ → List ℕ → List ℕ
insert gt key [] = key ∷ []
insert gt key (x ∷ r) = let deeper = insert gt key r in if gt x key then x ∷ deeper else key ∷ x ∷ r

unfoldable pub insert_all : (ℕ → ℕ → Bool) → List ℕ → List ℕ → List ℕ
insert_all gt r [] = r
insert_all gt r (x ∷ todo) = insert_all gt (insert gt x r) todo

get_or-onto : (r l : List ℕ) (k : ℕ) → get_or (onto r l) (length r + k) 0 ≡ get_or l k 0
get_or-onto [] l k = ap (λ n. get_or l n 0) (omega arith)
get_or-onto (x ∷ r) l k =
    let at : suc (length r) + k ≡ length r + suc k = omega arith in
    ap (λ n. get_or (onto r (x ∷ l)) n 0) at ∙ get_or-onto r (x ∷ l) (suc k)

set-onto : (r l : List ℕ) (k v : ℕ) → set (onto r l) (length r + k) v ≡ onto r (set l k v)
set-onto [] l k v = ap (λ n. set l n v) (omega arith)
set-onto (x ∷ r) l k v =
    let at : suc (length r) + k ≡ length r + suc k = omega arith in
    ap (λ n. set (onto r (x ∷ l)) n v) at ∙ set-onto r (x ∷ l) (suc k) v

get_or-onto_here : (r l : List ℕ) (x : ℕ) → get_or (onto r (x ∷ l)) (length r) 0 ≡ x
get_or-onto_here r l x =
    let at : length r ≡ length r + 0 = omega arith in
    ap (λ n. get_or (onto r (x ∷ l)) n 0) at ∙ get_or-onto r (x ∷ l) 0

set-onto_next :
    (r l : List ℕ) (x y v : ℕ) → set (onto r (x ∷ y ∷ l)) (suc (length r)) v ≡ onto r (x ∷ v ∷ l)
set-onto_next r l x y v =
    let at : suc (length r) ≡ length r + 1 = omega arith in
    ap (λ n. set (onto r (x ∷ y ∷ l)) n v) at ∙ set-onto r (x ∷ y ∷ l) 1 v

shift_lem :
    (gt : ℕ → ℕ → Bool) (key : ℕ) (r : List ℕ) (x : ℕ) (l : List ℕ)
    → shift gt key (length r) (onto r (x ∷ l)) ≡ onto (insert gt key r) l
unfolding shift insert
shift_lem gt key [] x l = refl
shift_lem gt key (a ∷ r) x l = elim (Bool-cases (gt a key)) [
  | inl e ↦
      rw (get_or-onto_here r (x ∷ l) a, e, set-onto_next r l a x a) (shift_lem gt key r a (a ∷ l))
  | inr e ↦ rw (get_or-onto_here r (x ∷ l) a, e, set-onto_next r l a x key) refl
]

length-insert :
    (gt : ℕ → ℕ → Bool) (key : ℕ) (r : List ℕ) → length (insert gt key r) ≡ suc (length r)
unfolding insert
length-insert gt key [] = refl
length-insert gt key (x ∷ r) = elim (Bool-cases (gt x key)) [
  | inl e ↦ rw e (ap suc (length-insert gt key r))
  | inr e ↦ rw e refl
]

insert_from_lem :
    (gt : ℕ → ℕ → Bool) (r todo rest : List ℕ)
    → insert_from gt (length r) (length todo) (onto r (todo ++ rest))
      ≡ onto (insert_all gt r todo) rest
unfolding insert_from insert_all
insert_from_lem gt r [] rest = refl
insert_from_lem gt r (x ∷ todo) rest =
    let loop = insert_from gt (suc (length r)) (length todo) in
    let array = onto r (x ∷ (todo ++ rest)) in
    ap (λ key. loop (shift gt key (length r) array)) (get_or-onto_here r (todo ++ rest) x)
    ∙ ap loop (shift_lem gt x r x (todo ++ rest))
    ∙ ap (λ i. insert_from gt i (length todo) (onto (insert gt x r) (todo ++ rest)))
        (sym (length-insert gt x r))
    ∙ insert_from_lem gt (insert gt x r) todo rest

-- The array behind the sorted part stays.
pub sortsv_lem :
    (gt : ℕ → ℕ → Bool) (array rest : List ℕ)
    → sortsv gt (length array) (array ++ rest) ≡ onto (insert_all gt [] array) rest
unfolding sortsv insert_all insert insert_from
sortsv_lem gt [] rest = refl
sortsv_lem gt (x ∷ todo) rest =
    let left : suc (length todo) - 1 ≡ length todo = omega arith in
    rw left (insert_from_lem gt (x ∷ []) todo rest)
