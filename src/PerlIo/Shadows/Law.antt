-- ===== src/PerlIo/Shadows/Law.antt =====
-- The list of shadows as a finite map from the tokens of the layers.
use go_perl.Prelude.{
  ℕ, ◌≡◌, ◌≢◌, inl, inr, refl, sym, ap, ◌∙◌, none, some, List, [], ◌∷◌, ◌==◌, ==_iff, ==_refl,
  choice-some, All, Bool-cases, Option-cases, arith,
}
use mathlib.Core.Path.{subst}
use go_perl.PerlIo.{Tab, Shadow}
use go_perl.PerlIo.Shadows.{find_shadow, store_shadow, iol_shadow, drop_shadow}

-- No shadow of the token.
abbrev pub Absent : ℕ → List Shadow → Type 0
Absent ltok list = All (λ s. s.ltok ≢ ltok) list

-- Each token has one shadow at most.
abbrev pub Distinct : List Shadow → Type 0
Distinct [] = Unit
Distinct (s ∷ rest) = Absent s.ltok rest × Distinct rest

find_shadow-Absent :
    (ltok : ℕ) (list : List Shadow) → Absent ltok list → find_shadow ltok list ≡ none
unfolding find_shadow
find_shadow-Absent ltok [] h = refl
find_shadow-Absent ltok (s ∷ rest) h = ground (arith, find_shadow-Absent ltok rest h.1)

Absent-find : (ltok : ℕ) (list : List Shadow) → find_shadow ltok list ≡ none → Absent ltok list
unfolding find_shadow
Absent-find ltok [] h = tt
Absent-find ltok (s ∷ rest) h = elim (Bool-cases (s.ltok == ltok)) [
  | inl e ↦ absurd (ground arith)
  | inr e ↦ (ground arith, Absent-find ltok rest (ground arith))
]

find_shadow-ltok :
    (ltok : ℕ) (list : List Shadow) (s : Shadow) → find_shadow ltok list ≡ some s → s.ltok ≡ ltok
unfolding find_shadow
find_shadow-ltok ltok [] s h = absurd cc
find_shadow-ltok ltok (x ∷ rest) s h =
    elim (choice-some (x.ltok == ltok) x (find_shadow ltok rest) h) [
      | inl (e, is) ↦ sym (ap (λ y. y.ltok) is) ∙ (==_iff x.ltok ltok).0 e
      | inr later ↦ find_shadow-ltok ltok rest s later
    ]

find_shadow-store_self :
    (s' : Shadow) (list : List Shadow) (s : Shadow)
    → find_shadow s'.ltok list ≡ some s
    → find_shadow s'.ltok (store_shadow s' list) ≡ some s'
unfolding find_shadow store_shadow
find_shadow-store_self s' [] s h = absurd cc
find_shadow-store_self s' (x ∷ rest) s h = elim (Bool-cases (x.ltok == s'.ltok)) [
  | inl e ↦ rw (e, ==_refl s'.ltok) refl
  | inr e ↦ rw e (rw e (find_shadow-store_self s' rest s (rw e at h)))
]

find_shadow-store_other :
    (s' : Shadow) (list : List Shadow) (ltok : ℕ)
    → s'.ltok ≢ ltok
    → find_shadow ltok (store_shadow s' list) ≡ find_shadow ltok list
unfolding find_shadow store_shadow
find_shadow-store_other s' [] ltok n = refl
find_shadow-store_other s' (x ∷ rest) ltok n =
    ground (arith, find_shadow-store_other s' rest ltok n)

Absent-store :
    (ltok : ℕ) (s' : Shadow) (list : List Shadow)
    → ltok ≢ s'.ltok
    → Absent ltok list
    → Absent ltok (store_shadow s' list)
unfolding store_shadow
Absent-store ltok s' [] n h = tt
Absent-store ltok s' (x ∷ rest) n h = elim (Bool-cases (x.ltok == s'.ltok)) [
  | inl e ↦ rw e (λ q. n (sym q), h.1)
  | inr e ↦ rw e (h.0, Absent-store ltok s' rest n h.1)
]

pub Distinct-store :
    (s' : Shadow) (list : List Shadow) → Distinct list → Distinct (store_shadow s' list)
unfolding store_shadow
Distinct-store s' [] d = tt
Distinct-store s' (x ∷ rest) d = elim (Bool-cases (x.ltok == s'.ltok)) [
  | inl e ↦ rw e (subst (λ t. Absent t rest) ((==_iff x.ltok s'.ltok).0 e) d.0, d.1)
  | inr e ↦ rw e (Absent-store x.ltok s' rest (ground arith) d.0, Distinct-store s' rest d.1)
]

Absent-drop :
    (at ltok : ℕ) (list : List Shadow) → Absent at list → Absent at (drop_shadow ltok list)
unfolding drop_shadow
Absent-drop at ltok [] h = tt
Absent-drop at ltok (x ∷ rest) h = elim (Bool-cases (x.ltok == ltok)) [
  | inl e ↦ rw e h.1
  | inr e ↦ rw e (h.0, Absent-drop at ltok rest h.1)
]

Distinct-drop : (ltok : ℕ) (list : List Shadow) → Distinct list → Distinct (drop_shadow ltok list)
unfolding drop_shadow
Distinct-drop ltok [] d = tt
Distinct-drop ltok (x ∷ rest) d = elim (Bool-cases (x.ltok == ltok)) [
  | inl e ↦ rw e d.1
  | inr e ↦ rw e (Absent-drop x.ltok ltok rest d.0, Distinct-drop ltok rest d.1)
]

-- The shadow that a hook gets, and what becomes of the others.
pub record Served (address : ℕ) (tab : Tab) (ltok ff : ℕ) (list : List Shadow) : Type 0 where
  pub distinct : Distinct (iol_shadow address tab ltok ff list).1
  pub found :
      find_shadow ltok (iol_shadow address tab ltok ff list).1
      ≡ some (iol_shadow address tab ltok ff list).0
  pub token : (iol_shadow address tab ltok ff list).0.ltok ≡ ltok
  pub handle : (iol_shadow address tab ltok ff list).0.ff ≡ ff
  pub kept :
      (s : Shadow)
      → find_shadow ltok list ≡ some s
      → (iol_shadow address tab ltok ff list).0 ≡ record s { ff = ff }
  pub others :
      (other : ℕ)
      → ltok ≢ other
      → find_shadow other (iol_shadow address tab ltok ff list).1 ≡ find_shadow other list

Served-known :
    (address : ℕ) (tab : Tab) (ltok ff : ℕ) (list : List Shadow) (s : Shadow)
    → Distinct list
    → find_shadow ltok list ≡ some s
    → Served address tab ltok ff list
unfolding iol_shadow
Served-known address tab ltok ff list s d h =
    let s' : Shadow = record s { ff = ff } in
    let same : s.ltok ≡ ltok = find_shadow-ltok ltok list s h in
    let self : find_shadow s.ltok (store_shadow s' list) ≡ some s' =
      find_shadow-store_self s' list s (subst (λ t. find_shadow t list ≡ some s) (sym same) h) in
    record {
      distinct = rw (iol_shadow, h) (Distinct-store s' list d);
      found =
          rw (iol_shadow, h)
            (subst (λ t. find_shadow t (store_shadow s' list) ≡ some s') same self);
      token = rw (iol_shadow, h) same;
      handle = rw (iol_shadow, h) refl;
      kept = λ t is.
          let one : s ≡ t = cc in
          rw (iol_shadow, h) (ap {A = Shadow} {B = Shadow} (λ u. record u { ff = ff }) one);
      others = λ other n.
          rw (iol_shadow, h) (find_shadow-store_other s' list other (λ q. n (sym same ∙ q)));
    }

Served-new :
    (address : ℕ) (tab : Tab) (ltok ff : ℕ) (list : List Shadow)
    → Distinct list
    → find_shadow ltok list ≡ none
    → Served address tab ltok ff list
unfolding iol_shadow find_shadow
Served-new address tab ltok ff list d h = record {
  distinct = rw (iol_shadow, h) (Absent-find ltok list h, d);
  found = rw (iol_shadow, h) (rw (==_refl ltok) refl);
  token = rw (iol_shadow, h) refl;
  handle = rw (iol_shadow, h) refl;
  kept = λ s is. absurd cc;
  others = λ other n. rw (iol_shadow, h) (ground arith);
}

-- The hook of a layer gets the one shadow of its token, with the handle of this call: the shadow
-- that the list has for it, else a new one in front; no other token's shadow changes.
pub iol_shadow-Served :
    (address : ℕ) (tab : Tab) (ltok ff : ℕ) (list : List Shadow)
    → Distinct list
    → Served address tab ltok ff list
iol_shadow-Served address tab ltok ff list d = elim (Option-cases (find_shadow ltok list)) [
  | inl h ↦ Served-new address tab ltok ff list d h
  | inr (s, h) ↦ Served-known address tab ltok ff list s d h
]

find_shadow-drop_self :
    (ltok : ℕ) (list : List Shadow)
    → Distinct list
    → find_shadow ltok (drop_shadow ltok list) ≡ none
unfolding find_shadow drop_shadow
find_shadow-drop_self ltok [] d = refl
find_shadow-drop_self ltok (x ∷ rest) d = elim (Bool-cases (x.ltok == ltok)) [
  | inl e ↦
      rw e
        (find_shadow-Absent ltok rest (subst (λ t. Absent t rest) ((==_iff x.ltok ltok).0 e) d.0))
  | inr e ↦ rw e (rw e (find_shadow-drop_self ltok rest d.1))
]

find_shadow-drop_other :
    (ltok : ℕ) (list : List Shadow) (other : ℕ)
    → ltok ≢ other
    → find_shadow other (drop_shadow ltok list) ≡ find_shadow other list
unfolding find_shadow drop_shadow
find_shadow-drop_other ltok [] other n = refl
find_shadow-drop_other ltok (x ∷ rest) other n =
    ground (arith, find_shadow-drop_other ltok rest other n)

-- Dropping the shadow of a token leaves none of it, and every other token's shadow.
pub drop_shadow_lem :
    (ltok : ℕ) (list : List Shadow)
    → Distinct list
    → Distinct (drop_shadow ltok list)
      × (find_shadow ltok (drop_shadow ltok list) ≡ none)
      × ((other : ℕ)
          → ltok ≢ other
          → find_shadow other (drop_shadow ltok list) ≡ find_shadow other list)
drop_shadow_lem ltok list d =
    (Distinct-drop ltok list d, find_shadow-drop_self ltok list d, find_shadow-drop_other ltok list)
