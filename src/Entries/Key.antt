-- ===== src/Entries/Key.antt =====
-- What the first reading of a key makes of the interpreter's answers.
use go_perl.Prelude.{
  ℕ, suc, ◌%◌, ◌^◌, ◌<◌, ◌≡◌, ◌≢◌, refl, sym, ap, ◌∙◌, inl, inr, Bool, true, false, ◌&&◌, not, some,
  List, [], ◌∷◌, ◌++◌, ltb, ◌==◌, get_or, length, take, bit_and, arith, Bool-cases, lt→ltb,
  length-append, take-append_length,
}
use go_perl.Bridge.{Guest, Log, World}
use go_perl.Bridge.Op.{hv_iterkeysv, sv_info}
use go_perl.Flush.{do_op}
use go_perl.Fetch.{hvhek_utf8}
use go_perl.Entries.{
  Hek, He, Entries, hef_svkey, info_has_utf8, key_layout, key_bytes, key_flag, he_hek_made, he_hek,
  he_utf8,
}
use go_perl.Entries.Stays.{
  write_he_other, write_he_same, write_hek_other, write_hek_same, he_hek-kept,
}

get_or-append_length : (xs ys : List ℕ) (y d : ℕ) → get_or (xs ++ (y ∷ ys)) (length xs) d ≡ y
get_or-append_length [] ys y d = refl
get_or-append_length (x ∷ xs) ys y d = get_or-append_length xs ys y d

get_or-append_suc :
    (xs ys : List ℕ) (y z d : ℕ) → get_or (xs ++ (y ∷ z ∷ ys)) (suc (length xs)) d ≡ z
get_or-append_suc [] ys y z d = refl
get_or-append_suc (x ∷ xs) ys y z d = get_or-append_suc xs ys y z d

-- The flag is a bit, and is set for the SVs whose key is UTF-8.
abbrev pub utf8_of : Guest → ℕ → World → Bool
utf8_of g keytok w = not (keytok == 0) && info_has_utf8 (do_op g sv_info keytok 0 [] w).0

key_flag_lem :
    (g : Guest) (keytok : ℕ) (w : World)
    → not (bit_and (key_flag g keytok w).0 hvhek_utf8 == 0) ≡ utf8_of g keytok w
unfolding key_flag
key_flag_lem g keytok w = elim (Bool-cases (keytok == 0)) [
  | inl q ↦ rw q refl
  | inr q ↦ elim (Bool-cases (info_has_utf8 (do_op g sv_info keytok 0 [] w).0)) [
    | inl r ↦ rw (q, r) refl
    | inr r ↦ rw (q, r) refl
  ]
]

-- `HeUTF8` of an entry whose key has the layout that `goperl_he_hek` makes.
he_utf8-layout :
    (g : Guest) (text : Log → ℕ → List ℕ) (he : ℕ) (e : Entries) (key : List ℕ) (flag : ℕ)
    → (e.hes he).hent_hek ≢ 0
    → suc (length key) < 2 ^ 31
    → e.heks ((e.hes he).hent_hek)
      ≡ record { hek_hash = 0; hek_len = length key % 2 ^ 32; hek_key = key_layout key flag }
    → he_utf8 g text he e ≡ some (not (bit_and flag hvhek_utf8 == 0), e)
unfolding he_utf8
he_utf8-layout g text he e key flag nz short is =
    let len : length key % 2 ^ 32 ≡ length key = omega arith in
    let plain : (length key == hef_svkey) ≡ false = ground arith in
    let inside : ltb (suc (length key)) (length (key_layout key flag)) ≡ true =
      lt→ltb _ _ (omega (arith, length-append {0} key (0 ∷ flag ∷ 0 ∷ 0 ∷ 0 ∷ 0 ∷ []))) in
    let low : ltb (suc (length key)) (2 ^ 31) ≡ true = lt→ltb _ _ short in
    rw
      (
        he_hek-kept g text he e nz,
        is,
        len,
        plain,
        inside,
        low,
        get_or-append_suc key (0 ∷ 0 ∷ 0 ∷ 0 ∷ []) 0 flag 0,
      )
      refl

-- The answers that the first reading of a key takes: the SV of the key, and its bytes.
abbrev pub asked : Guest → ℕ → Entries → ℕ × World
asked g he e = do_op g hv_iterkeysv (e.hes he).goperl_tok 0 [] e.world

abbrev pub bytes : Guest → (Log → ℕ → List ℕ) → ℕ → Entries → List ℕ × World
bytes g text he e = key_bytes text (asked g he e).0 (asked g he e).1

-- On an entry without a key, where `calloc` gives no null pointer and the key that the interpreter
-- answers is shorter than 2^31 - 1: the first reading makes a key whose `hek_len` and bytes are
-- those of the answer, with a NUL behind them; `HeUTF8` then says whether the answer is marked as
-- UTF-8, and makes no call; and all other entries and keys are as they were.
pub he_hek-answers :
    (g : Guest) (text : Log → ℕ → List ℕ) (he : ℕ) (e : Entries)
    → (e.hes he).hent_hek ≡ 0
    → e.arena.next ≢ 0
    → suc (length (bytes g text he e).0) < 2 ^ 31
    → (let (hek, e₁) = he_hek g text he e in
        let k = e₁.heks hek in
        let key = (bytes g text he e).0 in
        (k.hek_len ≡ length key)
        × (take (length key) k.hek_key ≡ key)
        × (get_or k.hek_key (length key) 0 ≡ 0)
        × (he_utf8 g text he e₁ ≡ some (utf8_of g (asked g he e).0 (bytes g text he e).1, e₁))
        × ((x : ℕ) → x ≢ he → e₁.hes x ≡ e.hes x)
        × ((x : ℕ) → x ≢ hek → e₁.heks x ≡ e.heks x))
unfolding he_hek he_hek_made
he_hek-answers g text he e null nz short =
    let q : ((e.hes he).hent_hek == 0) ≡ true = ground arith in
    let (key, w) = bytes g text he e in
    let flag = (key_flag g (asked g he e).0 w).0 in
    let is = write_hek_same e.arena.next _ e.heks in
    let e₁ = (he_hek_made g text he e).1 in
    let at : (e₁.hes he).hent_hek ≡ e.arena.next =
      ap (λ (h : He). h.hent_hek) (write_he_same he _ e.hes) in
    rw q (
      ap (λ (k : Hek). k.hek_len) is ∙ omega arith,
      ap (λ (k : Hek). take (length key) k.hek_key) is ∙ take-append_length {0} key _,
      ap (λ (k : Hek). get_or k.hek_key (length key) 0) is ∙ get_or-append_length key _ 0 0,
      he_utf8-layout g text he e₁ key flag (λ z. nz (sym at ∙ z)) short (ap e₁.heks at ∙ is)
          ∙ ap (λ b. some (b, e₁)) (key_flag_lem g (asked g he e).0 w),
      λ x other. write_he_other he x _ e.hes other,
      λ x other. write_hek_other e.arena.next x _ e.heks other,
    )
