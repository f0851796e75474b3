-- ===== src/Entries/Examples.antt =====
-- A hash of one entry, whose key is marked as UTF-8, and an entry that the module made.
use go_perl.Prelude.{ℕ, ◌+◌, ◌^◌, ◌≡◌, ◌≢◌, refl, some, List, [], ◌∷◌, get_or, length, take, arith}
use go_perl.Bridge.{Guest, Call, xs_op, Log}
use go_perl.Bridge.Op.{hv_iternext, hv_iterkeysv, hv_iterval, sv_info}
use go_perl.Flush.{do_op}
use go_perl.Save.Examples.{quiet}
use go_perl.Entries.{
  Hek, He, Entries, write_he, he_shadow, iternext, he_hek, he_utf8, he_svkey, he_svkey_set,
  iterkeysv, keyed, iterating, use_entries, key_layout, key_bytes, arena_free_all, free_blocks,
}
use go_perl.Entries.Stays.{he_hek-stays}
use go_perl.Entries.Key.{asked, bytes, utf8_of, he_hek-answers}
use go_perl.Entries.SvKey.{he_svkey-he_svkey_set}

abbrev reply : Call → ℕ
reply (xs_op hv_iternext a b s) = 7
reply (xs_op hv_iterkeysv a b s) = 20
reply (xs_op sv_info a b s) = 16
reply (xs_op hv_iterval a b s) = 21
reply call = 0

abbrev one_entry : Guest
one_entry = record { answer = λ log call. reply call }

abbrev names : Log → ℕ → List ℕ
names log tok = 195 ∷ 169 ∷ []

abbrev no_he : He
no_he = record { hent_next = 0; hent_hek = 0; hent_val = 0; goperl_tok = 0 }

abbrev no_hek : Hek
no_hek = record { hek_hash = 0; hek_len = 0; hek_key = [] }

abbrev nothing : Entries
nothing = record {
  world = quiet;
  arena = record { blocks = []; next = 4096; si_cache = 0; si_gen = 0 };
  hes = λ x. no_he;
  heks = λ x. no_hek;
}

abbrev first : Entries
first = record {
  world = (do_op one_entry hv_iterval 5 7 [] (do_op one_entry hv_iternext 5 0 [] quiet).1).1;
  arena = record { blocks = 4096 ∷ []; next = 4097; si_cache = 0; si_gen = 0 };
  hes = write_he 4096 (record no_he { hent_val = 21; goperl_tok = 7 }) (λ x. no_he);
  heks = λ x. no_hek;
}

iternext_first : iternext one_entry 5 nothing ≡ (4096, first)
unfolding iternext he_shadow do_op
iternext_first = refl

he_hek-stays_example :
    (let (hek, e₁) = he_hek one_entry names 4096 first in
      let e₂ = use_entries one_entry names (iterating 5 ∷ keyed 4098 ∷ []) e₁ in
      (he_hek one_entry names 4096 e₂ ≡ (hek, e₂)) × (e₂.heks hek ≡ e₁.heks hek))
unfolding write_he
he_hek-stays_example =
    he_hek-stays one_entry names 4096 (iterating 5 ∷ keyed 4098 ∷ []) first (omega arith)
      (omega arith)

he_hek-answers_example :
    (let (hek, e₁) = he_hek one_entry names 4096 first in
      let k = e₁.heks hek in
      let key = (bytes one_entry names 4096 first).0 in
      (k.hek_len ≡ length key)
      × (take (length key) k.hek_key ≡ key)
      × (get_or k.hek_key (length key) 0 ≡ 0)
      × (he_utf8 one_entry names 4096 e₁
          ≡ some (
            utf8_of one_entry (asked one_entry 4096 first).0 (bytes one_entry names 4096 first).1,
            e₁,
          ))
      × ((x : ℕ) → x ≢ 4096 → e₁.hes x ≡ first.hes x)
      × ((x : ℕ) → x ≢ hek → e₁.heks x ≡ first.heks x))
unfolding write_he key_bytes do_op
he_hek-answers_example = he_hek-answers one_entry names 4096 first refl (omega arith) (omega arith)

-- An entry of the module's own with a key of three bytes.
abbrev own : Entries
own = record nothing {
  hes = λ x. record no_he { hent_hek = 4096 };
  heks = λ x. record { hek_hash = 0; hek_len = 3; hek_key = key_layout (97 ∷ 98 ∷ 99 ∷ []) 0 };
}

he_svkey-he_svkey_set_example :
    (e : Entries) × (he_svkey_set 4000 (2 ^ 40 + 300) own ≡ some e)
    × (he_svkey one_entry names 4000 e ≡ (2 ^ 40 + 300, e))
    × (iterkeysv one_entry 4000 e ≡ some (2 ^ 40 + 300, e))
    × (e.hes ≡ own.hes)
    × ((x : ℕ) → x ≢ 4096 → e.heks x ≡ own.heks x)
he_svkey-he_svkey_set_example =
    he_svkey-he_svkey_set one_entry names 4000 (2 ^ 40 + 300) own refl (λ e. omega arith)
      (omega arith) (omega arith)

-- The end of the activation frees both blocks.
freed_lem :
    (arena_free_all (record { blocks = 4097 ∷ 4096 ∷ []; next = 4098; si_cache = 9; si_gen = 3 })).0
    ≡ 4097 ∷ 4096 ∷ []
unfolding arena_free_all free_blocks
freed_lem = refl
