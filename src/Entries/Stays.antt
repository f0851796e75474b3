-- ===== src/Entries/Stays.antt =====
-- A key that was read stays where it is while the module reads and makes other entries.
use go_perl.Prelude.{
  ℕ, ◌<◌, ◌≡◌, ◌≢◌, refl, sym, ap, ◌∙◌, inl, inr, true, false, List, [], ◌∷◌, ◌==◌, arith,
  Bool-cases, ==_iff,
}
use go_perl.Bridge.{Guest, Log}
use go_perl.Entries.{
  Hek, He, Entries, write_he, write_hek, he_shadow, he_hek_made, he_hek, fetch_ent, store_ent,
  iternext, he_svkey, Use, fetching, storing, iterating, keyed, sv_keyed, use_entry, use_entries,
}

pub write_he_other : (a x : ℕ) (h : He) (hes : ℕ → He) → x ≢ a → write_he a h hes x ≡ hes x
unfolding write_he
write_he_other a x h hes ne = let e : (x == a) ≡ false = ground arith in rw e refl

pub write_he_same : (a : ℕ) (h : He) (hes : ℕ → He) → write_he a h hes a ≡ h
unfolding write_he
write_he_same a h hes = let e : (a == a) ≡ true = ground arith in rw e refl

pub write_hek_other : (a x : ℕ) (k : Hek) (heks : ℕ → Hek) → x ≢ a → write_hek a k heks x ≡ heks x
unfolding write_hek
write_hek_other a x k heks ne = let e : (x == a) ≡ false = ground arith in rw e refl

pub write_hek_same : (a : ℕ) (k : Hek) (heks : ℕ → Hek) → write_hek a k heks a ≡ k
unfolding write_hek
write_hek_same a k heks = let e : (a == a) ≡ true = ground arith in rw e refl

-- The entry at `he` has its key at `hek`, which is `k`; both were allocated.
abbrev pub Held : ℕ → ℕ → Hek → Entries → Type 0
Held he hek k e =
    (he < e.arena.next)
    × (hek < e.arena.next)
    × (hek ≢ 0)
    × ((e.hes he).hent_hek ≡ hek)
    × (e.heks hek ≡ k)

he_shadow-Held :
    (g : Guest) (hv tok he hek : ℕ) (k : Hek) (e : Entries)
    → Held he hek k e
    → Held he hek k (he_shadow g hv tok e).1
unfolding he_shadow
he_shadow-Held g hv tok he hek k e (small, below, nz, at, is) =
    let other : he ≢ e.arena.next = λ q. omega arith in
    elim (Bool-cases (tok == 0)) [
      | inl q ↦ rw q (small, below, nz, at, is)
      | inr q ↦ rw q (
        omega arith,
        omega arith,
        nz,
        ap (λ (h : He). h.hent_hek) (write_he_other e.arena.next he _ e.hes other) ∙ at,
        is,
      )
    ]

pub he_hek-kept :
    (g : Guest) (text : Log → ℕ → List ℕ) (he : ℕ) (e : Entries)
    → (e.hes he).hent_hek ≢ 0
    → he_hek g text he e ≡ ((e.hes he).hent_hek, e)
unfolding he_hek
he_hek-kept g text he e nz = let q : ((e.hes he).hent_hek == 0) ≡ false = ground arith in rw q refl

he_hek-Held :
    (g : Guest) (text : Log → ℕ → List ℕ) (x he hek : ℕ) (k : Hek) (e : Entries)
    → Held he hek k e
    → Held he hek k (he_hek g text x e).1
unfolding he_hek he_hek_made
he_hek-Held g text x he hek k e (small, below, nz, at, is) =
    elim (Bool-cases ((e.hes x).hent_hek == 0)) [
      | inl q ↦
          let null = (==_iff (e.hes x).hent_hek 0).0 q in
          let other : he ≢ x = λ same. nz (sym at ∙ ap (λ y. (e.hes y).hent_hek) same ∙ null) in
          let fresh : hek ≢ e.arena.next = λ same. omega arith in
          rw q (
            omega arith,
            omega arith,
            nz,
            ap (λ (h : He). h.hent_hek) (write_he_other x he _ e.hes other) ∙ at,
            write_hek_other e.arena.next hek _ e.heks fresh ∙ is,
          )
      | inr q ↦ rw q (small, below, nz, at, is)
    ]

use_entry-Held :
    (g : Guest) (text : Log → ℕ → List ℕ) (u : Use) (he hek : ℕ) (k : Hek) (e : Entries)
    → Held he hek k e
    → Held he hek k (use_entry g text u e)
unfolding use_entry fetch_ent store_ent iternext he_svkey
use_entry-Held g text (fetching hv keysv lval) he hek k e h =
    he_shadow-Held g 0 _ he hek k (record e { world = _ }) h
use_entry-Held g text (storing hv keysv sv) he hek k e h =
    he_shadow-Held g 0 _ he hek k (record e { world = _ }) h
use_entry-Held g text (iterating hv) he hek k e h =
    he_shadow-Held g hv _ he hek k (record e { world = _ }) h
use_entry-Held g text (keyed x) he hek k e h = he_hek-Held g text x he hek k e h
use_entry-Held g text (sv_keyed x) he hek k e h = he_hek-Held g text x he hek k e h

use_entries-Held :
    (g : Guest) (text : Log → ℕ → List ℕ) (us : List Use) (he hek : ℕ) (k : Hek) (e : Entries)
    → Held he hek k e
    → Held he hek k (use_entries g text us e)
unfolding use_entries
use_entries-Held g text [] he hek k e h = h
use_entries-Held g text (u ∷ us) he hek k e h =
    use_entries-Held g text us he hek k (use_entry g text u e)
      (use_entry-Held g text u he hek k e h)

-- What the first reading of a key leaves.
pub he_hek-Reads :
    (g : Guest) (text : Log → ℕ → List ℕ) (he : ℕ) (e : Entries)
    → he < e.arena.next
    → (e.hes he).hent_hek < e.arena.next
    → Held he
        (he_hek g text he e).0
        ((he_hek g text he e).1.heks (he_hek g text he e).0)
        (he_hek g text he e).1
unfolding he_hek he_hek_made
he_hek-Reads g text he e small below = elim (Bool-cases ((e.hes he).hent_hek == 0)) [
  | inl q ↦ rw q (
    omega arith,
    omega arith,
    (λ same. omega arith),
    ap (λ (h : He). h.hent_hek) (write_he_same he _ e.hes),
    refl,
  )
  | inr q ↦ let nz : (e.hes he).hent_hek ≢ 0 = ground arith in rw q (small, below, nz, refl, refl)
]

-- Where an entry and the key it may have were allocated: whatever entries the module fetches,
-- stores, iterates over and reads the keys of after it has read this one's key, the next reading of
-- it makes no call and gives the same address, at which the key is what it was.
pub he_hek-stays :
    (g : Guest) (text : Log → ℕ → List ℕ) (he : ℕ) (us : List Use) (e : Entries)
    → he < e.arena.next
    → (e.hes he).hent_hek < e.arena.next
    → (let (hek, e₁) = he_hek g text he e in
        let e₂ = use_entries g text us e₁ in
        (he_hek g text he e₂ ≡ (hek, e₂)) × (e₂.heks hek ≡ e₁.heks hek))
he_hek-stays g text he us e small below =
    let (hek, e₁) = he_hek g text he e in
    let (a, b, nz, at, is) =
      use_entries-Held g text us he hek (e₁.heks hek) e₁ (he_hek-Reads g text he e small below) in
    let e₂ = use_entries g text us e₁ in
    let nz₂ : (e₂.hes he).hent_hek ≢ 0 = λ q. nz (sym at ∙ q) in
    (he_hek-kept g text he e₂ nz₂ ∙ ap (λ x. (x, e₂)) at, is)
