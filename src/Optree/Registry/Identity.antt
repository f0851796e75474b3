-- ===== src/Optree/Registry/Identity.antt =====
-- The registry gives one host op for a token, and keeps giving it.
use mathlib.Core.Path.{subst}
use go_perl.Prelude.{
  ℕ, ◌<◌, ◌≡◌, ◌≢◌, ◌⊎◌, inl, inr, refl, sym, ap, ◌∙◌, Bool, true, false, Option, none, some, List,
  [], ◌∷◌, ◌==◌, ==_refl, ==_iff, if◌then◌else◌, get_or, length, get_or-set, All, Option-cases,
  choice-some, arith,
}
use go_perl.Bridge.{Guest, World}
use go_perl.Bridge.Op.{op_ptr, op_fields}
use go_perl.Flush.{do_op}
use go_perl.Optree.{Op, Ext, Optree, write_op}
use go_perl.Optree.Registry.{
  opreg_buckets, bucket_of, opptr_is_hooked, find_op, opext_scan, link_op, take_fields, new_shadow,
  after_scan, shadow_unlinked, op_shadow,
}

find_op-gop :
    (ops : ℕ → Op) (tok : ℕ) (chain : List ℕ) (a : ℕ)
    → find_op ops tok chain ≡ some a
    → (ops a).gop ≡ tok
unfolding find_op
find_op-gop ops tok [] a h = absurd cc
find_op-gop ops tok (x ∷ chain) a h =
    elim (choice-some ((ops x).gop == tok) x (find_op ops tok chain) h) [
      | inl (e, is) ↦ ap (λ y. (ops y).gop) (sym is) ∙ (==_iff (ops x).gop tok).0 e
      | inr later ↦ find_op-gop ops tok chain a later
    ]

-- Each long-lived shadow is the shadow of its token.
abbrev pub ExtAgrees : Optree → Type 0
ExtAgrees t = All (λ e. (t.ops e.op).gop ≡ e.tok) t.opext

picked :
    {B C : Type 0} (c : Bool) (x y : Option ℕ × B × C) {a : ℕ}
    → (if c then x else y).0 ≡ some a
    → ((c ≡ true) × (x.0 ≡ some a)) ⊎ ((c ≡ false) × (y.0 ≡ some a))
picked true x y h = inl (refl, h)
picked false x y h = inr (refl, h)

opext_scan-gop :
    (g : Guest) (tok : ℕ) (ops : ℕ → Op) (list : List Ext) (w : World) (a : ℕ)
    → All (λ e. (ops e.op).gop ≡ e.tok) list
    → (opext_scan g tok list w).0 ≡ some a
    → (ops a).gop ≡ tok
unfolding opext_scan
opext_scan-gop g tok ops [] w a h is = absurd cc
opext_scan-gop g tok ops (e ∷ rest) w a h is =
    let asked = do_op g op_ptr tok opptr_is_hooked [] w in
    let dropped = opext_scan g tok rest asked.1 in
    let passed = opext_scan g tok rest w in
    elim (picked (e.tok == tok) (if asked.0 == 0 then dropped else (some e.op, e ∷ rest, asked.1))
      (passed.0, e ∷ passed.1, passed.2) is) [
        | inl (same, is') ↦
            elim (picked (asked.0 == 0) dropped (some e.op, e ∷ rest, asked.1) is') [
              | inl (gone, later) ↦ opext_scan-gop g tok ops rest asked.1 a h.1 later
              | inr (here, found) ↦
                  let at : e.op ≡ a = cc in
                  ap (λ y. (ops y).gop) (sym at) ∙ h.0 ∙ (==_iff e.tok tok).0 same
            ]
        | inr (other, later) ↦ opext_scan-gop g tok ops rest w a h.1 later
      ]

-- What a lookup gives: the shadow of the token, linked so that the next lookup gives it again
-- without a call; every op that was there is as it was.
Identified : Guest → ℕ → Optree → ℕ × Optree → Type 0
Identified g tok t r =
    ((r.1.ops r.0).gop ≡ tok)
    × (op_shadow g tok r.1 ≡ r)
    × ((x : ℕ) → x < t.next → r.1.ops x ≡ t.ops x)

linked_again :
    (g : Guest) (tok a : ℕ) (t : Optree) (chain : List ℕ)
    → tok ≢ 0
    → get_or t.buckets (bucket_of tok) [] ≡ a ∷ chain
    → (t.ops a).gop ≡ tok
    → op_shadow g tok t ≡ (a, t)
unfolding op_shadow find_op
linked_again g tok a t chain nz at is =
    let some_tok : (tok == 0) ≡ false = ground arith in rw (some_tok, at, is, ==_refl tok) refl

linked :
    (tok a : ℕ) (buckets : List (List ℕ))
    → length buckets ≡ opreg_buckets
    → get_or (link_op tok a buckets) (bucket_of tok) [] ≡ a ∷ get_or buckets (bucket_of tok) []
unfolding link_op
linked tok a buckets h =
    get_or-set buckets (bucket_of tok) (a ∷ get_or buckets (bucket_of tok) []) [] (omega arith)

found-Identified :
    (g : Guest) (tok a : ℕ) (t : Optree)
    → tok ≢ 0
    → find_op t.ops tok (get_or t.buckets (bucket_of tok) []) ≡ some a
    → Identified g tok t (a, t)
unfolding Identified op_shadow
found-Identified g tok a t nz is =
    let some_tok : (tok == 0) ≡ false = ground arith in
    (
      find_op-gop t.ops tok (get_or t.buckets (bucket_of tok) []) a is,
      rw (some_tok, is) refl,
      λ x h. refl,
    )

new_shadow-Identified :
    (g : Guest) (tok : ℕ) (t : Optree)
    → tok ≢ 0
    → length t.buckets ≡ opreg_buckets
    → Identified g tok t (new_shadow g tok t)
unfolding Identified new_shadow write_op take_fields
new_shadow-Identified g tok t nz len =
    let made = new_shadow g tok t in
    let is : (made.1.ops made.0).gop ≡ tok = rw (==_refl t.next) refl in
    (
      is,
      linked_again g tok made.0 made.1 (get_or t.buckets (bucket_of tok) []) nz
          (linked tok t.next t.buckets len) is,
      λ x h. let other : (x == t.next) ≡ false = ground arith in rw other refl,
    )

after_scan-Identified :
    (g : Guest) (tok : ℕ) (t : Optree) (found : Option ℕ)
    → tok ≢ 0
    → length t.buckets ≡ opreg_buckets
    → ((a : ℕ) → found ≡ some a → (t.ops a).gop ≡ tok)
    → Identified g tok t (after_scan g tok t found)
unfolding after_scan Identified
after_scan-Identified g tok t none nz len known = new_shadow-Identified g tok t nz len
after_scan-Identified g tok t (some a) nz len known = (
  known a refl,
  linked_again g tok a (record t { buckets = link_op tok a t.buckets })
      (get_or t.buckets (bucket_of tok) []) nz (linked tok a t.buckets len) (known a refl),
  λ x h. refl,
)

shadow_unlinked-Identified :
    (g : Guest) (tok : ℕ) (t : Optree)
    → tok ≢ 0
    → length t.buckets ≡ opreg_buckets
    → ExtAgrees t
    → Identified g tok t (shadow_unlinked g tok t)
unfolding shadow_unlinked Identified
shadow_unlinked-Identified g tok t nz len ext =
    let (found, opext, w) = opext_scan g tok t.opext t.world in
    after_scan-Identified g tok (record t { opext = opext; world = w }) found nz len
      (λ a is. opext_scan-gop g tok t.ops t.opext t.world a ext is)

op_shadow-missing :
    (g : Guest) (tok : ℕ) (t : Optree)
    → (tok == 0) ≡ false
    → find_op t.ops tok (get_or t.buckets (bucket_of tok) []) ≡ none
    → op_shadow g tok t ≡ shadow_unlinked g tok t
unfolding op_shadow
op_shadow-missing g tok t nz is = rw (op_shadow, nz, is) refl

op_shadow-found :
    (g : Guest) (tok : ℕ) (t : Optree) (a : ℕ)
    → (tok == 0) ≡ false
    → find_op t.ops tok (get_or t.buckets (bucket_of tok) []) ≡ some a
    → op_shadow g tok t ≡ (a, t)
unfolding op_shadow
op_shadow-found g tok t a nz is = rw (op_shadow, nz, is) refl

-- A lookup of a token other than 0 gives an op with that token; the same lookup right behind it
-- gives the same op without a call and changes nothing; and every op allocated before is as it was.
-- The registry has its 1024 chains, and each long-lived shadow has the token it is listed by.
pub op_shadow-Identified :
    (g : Guest) (tok : ℕ) (t : Optree)
    → tok ≢ 0
    → length t.buckets ≡ opreg_buckets
    → ExtAgrees t
    → let r = op_shadow g tok t in
      ((r.1.ops r.0).gop ≡ tok)
      × (op_shadow g tok r.1 ≡ r)
      × ((x : ℕ) → x < t.next → r.1.ops x ≡ t.ops x)
unfolding Identified
op_shadow-Identified g tok t nz len ext =
    let some_tok : (tok == 0) ≡ false = ground arith in
    elim (Option-cases (find_op t.ops tok (get_or t.buckets (bucket_of tok) []))) [
      | inl missing ↦
          subst (Identified g tok t) (sym (op_shadow-missing g tok t some_tok missing))
            (shadow_unlinked-Identified g tok t nz len ext)
      | inr (a, is) ↦
          subst (Identified g tok t) (sym (op_shadow-found g tok t a some_tok is))
            (found-Identified g tok a t nz is)
    ]

-- What becomes of a token that the registry does not know: a new shadow, not full, behind a question
-- for the fields of an op.
pub record Adopted (g : Guest) (tok : ℕ) (t : Optree) : Type 0 where
  pub address : (op_shadow g tok t).0 ≡ t.next
  pub empty : ((op_shadow g tok t).1.ops (op_shadow g tok t).0).gop_full ≡ false
  pub asked : (op_shadow g tok t).1.world ≡ (do_op g op_fields tok 0 [] t.world).1

new_shadow_full :
    (g : Guest) (tok : ℕ) (t : Optree)
    → ((new_shadow g tok t).1.ops (new_shadow g tok t).0).gop_full ≡ false
unfolding new_shadow write_op take_fields
new_shadow_full g tok t = rw (==_refl t.next) refl

adopted_from :
    (g : Guest) (tok : ℕ) (t : Optree) (ext : List Ext)
    → ext ≡ []
    → (let (found, opext, w) = opext_scan g tok ext t.world in
        after_scan g tok (record t { opext = opext; world = w }) found)
      ≡ new_shadow g tok (record t { opext = [] })
unfolding after_scan opext_scan
adopted_from g tok t [] h = refl
adopted_from g tok t (e ∷ rest) h = absurd cc

pub op_shadow-Adopted :
    (g : Guest) (tok : ℕ) (t : Optree)
    → tok ≢ 0
    → find_op t.ops tok (get_or t.buckets (bucket_of tok) []) ≡ none
    → t.opext ≡ []
    → Adopted g tok t
unfolding shadow_unlinked new_shadow
op_shadow-Adopted g tok t nz missing none_kept =
    let some_tok : (tok == 0) ≡ false = ground arith in
    let is : op_shadow g tok t ≡ new_shadow g tok (record t { opext = [] }) =
      op_shadow-missing g tok t some_tok missing ∙ adopted_from g tok t t.opext none_kept in
    record {
      address = ap (λ r. r.0) is;
      empty = ap (λ r. (r.1.ops r.0).gop_full) is ∙ new_shadow_full g tok (record t { opext = [] });
      asked = ap (λ r. r.1.world) is;
    }
