-- ===== src/PerlIo/Shadows.antt =====
-- The host shadows of the layers that the interpreter pushed, by the token of the layer, newest
-- first.
pub mod Law
use go_perl.Prelude.{
  ℕ, zero, suc, ◌+◌, ◌-◌, ◌≡◌, ◌≢◌, ◌⊎◌, inl, inr, refl, sym, ap, ◌∙◌, Bool, true, false, Option,
  none, some, List, [], ◌∷◌, ◌++◌, ◌==◌, ==_iff, ==_refl, choice-some, if◌then◌else◌, All,
  Bool-cases, Option-cases, arith, length,
}
use mathlib.Core.Path.{subst}
use go_perl.PerlIo.{Tab, Base, Layer, Shadow}
use go_perl.PerlIo.Tail.{tail_funcs}

-- The loop that looks for the shadow of a token.
pub find_shadow : ℕ → List Shadow → Option Shadow
find_shadow ltok [] = none
find_shadow ltok (s ∷ rest) =
    let later = find_shadow ltok rest in if s.ltok == ltok then some s else later

-- A write through the pointer that the loop found.
pub store_shadow : Shadow → List Shadow → List Shadow
store_shadow s' [] = []
store_shadow s' (s ∷ rest) =
    let later = store_shadow s' rest in if s.ltok == s'.ltok then s' ∷ rest else s ∷ later

-- The shadow that `calloc` gives at `address`, filled in.
pub fresh : ℕ → Tab → ℕ → ℕ → Shadow
fresh address tab ltok ff = record {
  address = address;
  ltok = ltok;
  ff = ff;
  layer = record {
    base = record { tab = tab; flags = 0; err = 0 };
    buf = 0;
    last = 0;
    ptr = 0;
    posn = 0;
    bufsiz = 0;
    fields = [];
  };
  tail = record { tab = tail_funcs; flags = 0; err = 0 };
}

-- `goperl_iol_shadow`: the shadow, and the list.
pub iol_shadow : ℕ → Tab → ℕ → ℕ → List Shadow → Shadow × List Shadow
unfolding find_shadow store_shadow fresh
iol_shadow address tab ltok ff list = elim (find_shadow ltok list) [
  | some s ↦ let s' = record s { ff = ff } in (s', store_shadow s' list)
  | none ↦ let s' = fresh address tab ltok ff in (s', s' ∷ list)
]

-- The case POPPED: the shadow of the token is taken out of the list.
pub drop_shadow : ℕ → List Shadow → List Shadow
drop_shadow ltok [] = []
drop_shadow ltok (s ∷ rest) =
    let later = drop_shadow ltok rest in if s.ltok == ltok then rest else s ∷ later
