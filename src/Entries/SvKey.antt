-- ===== src/Entries/SvKey.antt =====
-- Keys that are SVs: `HeSVKEY_set`, and what the readings find behind it.
use go_perl.Prelude.{
  ℕ, ◌^◌, ◌<◌, ◌≤◌, ◌≡◌, ◌≢◌, ◌↔◌, refl, ap, inl, inr, true, false, none, some, List, [], ◌∷◌, ◌++◌,
  ltb, ◌==◌, if◌then◌else◌, length, take, drop, arith, Bool-cases, ltb→lt, le_of_ltb-false,
  ltb_of_le, length-append,
}
use go_perl.Bridge.{Guest, Log}
use go_perl.Optree.Build.{bytes_64}
use go_perl.Entries.{
  Hek, He, Entries, write_hek, hef_svkey, key_layout, he_hek_made, he_hek, he_svkey, he_svkey_set,
  iterkeysv, number,
}
use go_perl.Entries.Stays.{write_he_same, write_hek_other, write_hek_same, he_hek-kept}
use go_perl.Entries.Key.{bytes}

number-bytes_64 :
    (sv : ℕ) (rest : List ℕ) → sv < 2 ^ 64 → number (take 8 (bytes_64 8 sv ++ rest)) ≡ sv
unfolding number bytes_64
number-bytes_64 sv rest small = omega arith

-- What is stored at the key of an entry.
abbrev with_sv : ℕ → Hek → Hek
with_sv sv k = record k { hek_len = hef_svkey; hek_key = bytes_64 8 sv ++ drop 8 k.hek_key }

abbrev set_sv : ℕ → ℕ → Entries → Entries
set_sv he sv e =
    let hek = (e.hes he).hent_hek in
    record e { heks = write_hek hek (with_sv sv (e.heks hek)) e.heks }

he_svkey_set-fits :
    (he sv : ℕ) (e : Entries)
    → (e.hes he).hent_hek ≢ 0
    → 8 ≤ length (e.heks ((e.hes he).hent_hek)).hek_key
    → he_svkey_set he sv e ≡ some (set_sv he sv e)
unfolding he_svkey_set
he_svkey_set-fits he sv e nz long =
    let q : ((e.hes he).hent_hek == 0) ≡ false = ground arith in
    rw (q, ltb_of_le (length (e.heks ((e.hes he).hent_hek)).hek_key) 8 long) refl

-- On an entry that the module made, whose key has room for a pointer, `HeSVKEY_set` stores the SV:
-- `HeSVKEY` and `hv_iterkeysv` then give it, without a call and a change; no entry and no other key
-- changes.
pub he_svkey-he_svkey_set :
    (g : Guest) (text : Log → ℕ → List ℕ) (he sv : ℕ) (e : Entries)
    → (e.hes he).goperl_tok ≡ 0
    → (e.hes he).hent_hek ≢ 0
    → 8 ≤ length (e.heks ((e.hes he).hent_hek)).hek_key
    → sv < 2 ^ 64
    → (e₁ : Entries) × (he_svkey_set he sv e ≡ some e₁)
      × (he_svkey g text he e₁ ≡ (sv, e₁))
      × (iterkeysv g he e₁ ≡ some (sv, e₁))
      × (e₁.hes ≡ e.hes)
      × ((x : ℕ) → x ≢ (e.hes he).hent_hek → e₁.heks x ≡ e.heks x)
unfolding he_svkey iterkeysv
he_svkey-he_svkey_set g text he sv e own nz long small =
    let hek = (e.hes he).hent_hek in
    let e₁ = set_sv he sv e in
    let is = write_hek_same hek (with_sv sv (e.heks hek)) e.heks in
    let back = number-bytes_64 sv (drop 8 (e.heks hek).hek_key) small in
    let null : (hek == 0) ≡ false = ground arith in
    (
      e₁,
      he_svkey_set-fits he sv e nz long,
      rw (he_hek-kept g text he e₁ nz, is, back) refl,
      rw (own, null, is, back) refl,
      refl,
      λ x other. write_hek_other hek x _ e.heks other,
    )

write-short :
    (key : List ℕ) (flag : ℕ) (x : Entries)
    → ((if ltb (length (key_layout key flag)) 8 then none else some x) ≡ none) ↔ (length key < 2)
write-short key flag x =
    let len = length-append {0} key (0 ∷ flag ∷ 0 ∷ 0 ∷ 0 ∷ 0 ∷ []) in
    elim (Bool-cases (ltb (length (key_layout key flag)) 8)) [
      | inl r ↦ rw r (λ same. omega (arith, ltb→lt _ _ r), λ h. refl)
      | inr r ↦ rw r (λ same. cc, λ h. absurd (omega (arith, le_of_ltb-false _ _ r)))
    ]

-- `HeSVKEY_set` behind the first reading of a key writes outside of it exactly if the key has fewer
-- than two bytes.
pub he_svkey_set-short :
    (g : Guest) (text : Log → ℕ → List ℕ) (he sv : ℕ) (e : Entries)
    → (e.hes he).hent_hek ≡ 0
    → e.arena.next ≢ 0
    → (he_svkey_set he sv (he_hek g text he e).1 ≡ none) ↔ (length (bytes g text he e).0 < 2)
unfolding he_hek he_hek_made he_svkey_set
he_svkey_set-short g text he sv e null nz =
    let q : ((e.hes he).hent_hek == 0) ≡ true = ground arith in
    let key = (bytes g text he e).0 in
    let at : ((he_hek_made g text he e).1.hes he).hent_hek ≡ e.arena.next =
      ap (λ (h : He). h.hent_hek) (write_he_same he _ e.hes) in
    let there : (e.arena.next == 0) ≡ false = ground arith in
    rw (q, at, write_hek_same e.arena.next _ e.heks, there) (write-short key _ _)
