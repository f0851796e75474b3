-- ===== src/Entries.antt =====
-- The shadows of hash entries (xs/sdk/include/perl.h): `HE` and `HEK` in the arena that lasts as
-- long as the outermost activation, the operations that give an entry, and the macros `HeKEY`,
-- `HeKLEN`, `HeUTF8`, `HeSVKEY` and `HeSVKEY_set`.
pub mod Stays
pub mod Key
pub mod SvKey
pub mod Examples
use go_perl.Prelude.{
  ℕ, zero, suc, ◌+◌, ◌-◌, ◌*◌, ◌/◌, ◌%◌, ◌^◌, Bool, true, false, ◌&&◌, ◌||◌, not, Option, none,
  some, List, [], ◌∷◌, ◌++◌, ltb, ◌==◌, if◌then◌else◌, get_or, length, take, drop, bit_and,
}
use go_perl.Bridge.{Guest, World, Log, sv_pv, emit}
use go_perl.Bridge.Op.{
  hv_iterval, he_val, hv_iterkeysv, sv_info, hv_fetch_ent, hv_store_ent, hv_iternext, new_pvn,
  sv_mortal,
}
use go_perl.Flush.{do_op}
use go_perl.Fetch.{hvhek_utf8}
use go_perl.Intern.{Chain, Pointer, intern}
use go_perl.Optree.Build.{bytes_64}

-- `struct hek`, with all the bytes of its allocation from `hek_key` on. `hek_len` is the pattern of
-- an I32.
pub record Hek : Type 0 where
  pub hek_hash : ℕ
  pub hek_len : ℕ
  pub hek_key : List ℕ

-- `struct goperl_he`; `hent_hek` is an address, 0 for null.
pub record He : Type 0 where
  pub hent_next : ℕ
  pub hent_hek : ℕ
  pub hent_val : ℕ
  pub goperl_tok : ℕ

-- `arena_head`: the blocks that hang on it, newest first, by the address of their content; the
-- address that `calloc` gives next; `si_cache` and `si_gen`.
pub record Arena : Type 0 where
  pub blocks : List ℕ
  pub next : ℕ
  pub si_cache : ℕ
  pub si_gen : ℕ

-- The entries and the keys of the host by their addresses.
pub record Entries : Type 0 where
  pub world : World
  pub arena : Arena
  pub hes : ℕ → He
  pub heks : ℕ → Hek

-- `goperl_arena_alloc`
abbrev pub arena_alloc : Arena → ℕ × Arena
arena_alloc a = (a.next, record a { blocks = a.next ∷ a.blocks; next = suc a.next })

-- The loop of `goperl_arena_free_all`: the blocks that are freed, in order.
pub free_blocks : List ℕ → List ℕ × List ℕ
free_blocks [] = ([], [])
free_blocks (b ∷ blocks) = let (freed, left) = free_blocks blocks in (b ∷ freed, left)

pub arena_free_all : Arena → List ℕ × Arena
unfolding free_blocks
arena_free_all a =
    let (freed, left) = free_blocks a.blocks in
    (freed, record a { blocks = left; si_cache = 0; si_gen = 0 })

-- Stores at an address.
pub write_he : ℕ → He → (ℕ → He) → ℕ → He
write_he a h hes x = if x == a then h else hes x

pub write_hek : ℕ → Hek → (ℕ → Hek) → ℕ → Hek
write_hek a k heks x = if x == a then k else heks x

-- `goperl_he_shadow`, with the token 0 for a null hash.
pub he_shadow : Guest → ℕ → ℕ → Entries → ℕ × Entries
unfolding write_he
he_shadow g hv tok e =
    let (he, a) = arena_alloc e.arena in
    let (val, w) =
      if hv == 0 then do_op g he_val tok 0 [] e.world else do_op g hv_iterval hv tok [] e.world in
    let made : He = record { hent_next = 0; hent_hek = 0; hent_val = val; goperl_tok = tok } in
    if tok == 0
    then (0, e)
    else (he, record { world = w; arena = a; hes = write_he he made e.hes; heks = e.heks })

-- `GOPERL_INFO_UTF8`, and the pattern of `HEf_SVKEY`, which is -2.
abbrev pub info_utf8 : ℕ
info_utf8 = 16

abbrev pub hef_svkey : ℕ
hef_svkey = 2 ^ 32 - 2

-- `SvUTF8`: the test on the answer to SV_INFO.
abbrev pub info_has_utf8 : ℕ → Bool
info_has_utf8 info = not (bit_and info info_utf8 == 0)

-- The bytes from `hek_key` on: those of the key, the NUL, the flag, and the rest of
-- `sizeof(HEK) + len + 2`, of which 8 bytes are in front of `hek_key`.
abbrev pub key_layout : List ℕ → ℕ → List ℕ
key_layout key flag = key ++ (0 ∷ flag ∷ 0 ∷ 0 ∷ 0 ∷ 0 ∷ [])

-- `sv_pv` of the key's SV, which `text` answers; a null SV is not asked, and has no bytes.
pub key_bytes : (Log → ℕ → List ℕ) → ℕ → World → List ℕ × World
key_bytes text keytok w =
    if keytok == 0
    then ([], w)
    else (text w.log keytok, record w { log = emit (sv_pv keytok) w.log })

pub key_flag : Guest → ℕ → World → ℕ × World
key_flag g keytok w =
    let (info, w') = do_op g sv_info keytok 0 [] w in
    if keytok == 0 then (0, w) else (if info_has_utf8 info then hvhek_utf8 else 0, w')

-- `goperl_he_hek` behind its first line.
pub he_hek_made : Guest → (Log → ℕ → List ℕ) → ℕ → Entries → ℕ × Entries
unfolding key_bytes key_flag write_he write_hek
he_hek_made g text he e =
    let h = e.hes he in
    let (keytok, w) = do_op g hv_iterkeysv h.goperl_tok 0 [] e.world in
    let (key, w₁) = key_bytes text keytok w in
    let (hek, a) = arena_alloc e.arena in
    let (flag, w₂) = key_flag g keytok w₁ in
    let made : Hek = record {
      hek_hash = 0;
      hek_len = length key % 2 ^ 32;
      hek_key = key_layout key flag;
    } in
    (
      hek,
      record {
        world = w₂;
        arena = a;
        hes = write_he he (record h { hent_hek = hek }) e.hes;
        heks = write_hek hek made e.heks;
      },
    )

-- `goperl_he_hek`
pub he_hek : Guest → (Log → ℕ → List ℕ) → ℕ → Entries → ℕ × Entries
unfolding he_hek_made
he_hek g text he e =
    let made = he_hek_made g text he e in
    let hek = (e.hes he).hent_hek in if hek == 0 then made else (hek, e)

-- `hv_fetch_ent`, `hv_store_ent`, `hv_iternext`
pub fetch_ent : Guest → ℕ → ℕ → Bool → Entries → ℕ × Entries
unfolding he_shadow
fetch_ent g hv keysv lval e =
    let (tok, w) =
      do_op g hv_fetch_ent hv (keysv % 2 ^ 32 + (if lval then 2 ^ 32 else 0)) [] e.world in
    he_shadow g 0 tok (record e { world = w })

pub store_ent : Guest → ℕ → ℕ → ℕ → Entries → ℕ × Entries
unfolding he_shadow
store_ent g hv keysv sv e =
    let (tok, w) = do_op g hv_store_ent hv (keysv % 2 ^ 32 * 2 ^ 32 + sv % 2 ^ 32) [] e.world in
    he_shadow g 0 tok (record e { world = w })

pub iternext : Guest → ℕ → Entries → ℕ × Entries
unfolding he_shadow
iternext g hv e =
    let (tok, w) = do_op g hv_iternext hv 0 [] e.world in
    he_shadow g hv tok (record e { world = w })

-- The number that eight bytes are, the low one first.
pub number : List ℕ → ℕ
number [] = 0
number (b ∷ s) = b + 2 ^ 8 * number s

abbrev pub stored_sv : Hek → ℕ
stored_sv k = number (take 8 k.hek_key)

-- `HeSVKEY`
pub he_svkey : Guest → (Log → ℕ → List ℕ) → ℕ → Entries → ℕ × Entries
unfolding number he_hek
he_svkey g text he e =
    let (hek, e') = he_hek g text he e in
    let k = e'.heks hek in (if k.hek_len == hef_svkey then stored_sv k else 0, e')

-- `HeUTF8`; `none` for a read outside of the key.
pub he_utf8 : Guest → (Log → ℕ → List ℕ) → ℕ → Entries → Option (Bool × Entries)
unfolding number he_hek
he_utf8 g text he e =
    let (hek, e') = he_hek g text he e in
    let k = e'.heks hek in
    let (info, w) = do_op g sv_info (stored_sv k) 0 [] e'.world in
    if k.hek_len == hef_svkey
    then some (info_has_utf8 info, record e' { world = w })
    else if ltb (suc k.hek_len) (length k.hek_key) && ltb (suc k.hek_len) (2 ^ 31)
    then some (not (bit_and (get_or k.hek_key (suc k.hek_len) 0) hvhek_utf8 == 0), e')
    else none

-- `HeSVKEY_set`; `none` for a null key, and for a write outside of the key.
pub he_svkey_set : ℕ → ℕ → Entries → Option Entries
unfolding write_hek
he_svkey_set he sv e =
    let hek = (e.hes he).hent_hek in
    let k = e.heks hek in
    if (hek == 0) || ltb (length k.hek_key) 8
    then none
    else some (record e {
      heks =
          write_hek hek
            (record k { hek_len = hef_svkey; hek_key = bytes_64 8 sv ++ drop 8 k.hek_key }) e.heks;
    })

-- `goperl_hv_iterkeysv`; `none` for a read outside of the key, which a negative length makes.
pub iterkeysv : Guest → ℕ → Entries → Option (ℕ × Entries)
unfolding number
iterkeysv g he e =
    let h = e.hes he in
    let k = e.heks h.hent_hek in
    let (asked, w) = do_op g hv_iterkeysv h.goperl_tok 0 [] e.world in
    let (made, w₁) = do_op g new_pvn 0 k.hek_len (take k.hek_len k.hek_key) e.world in
    let mortal = (do_op g sv_mortal made 0 [] w₁).1 in
    if not (h.goperl_tok == 0)
    then some (asked, record e { world = w })
    else if h.hent_hek == 0
    then some (0, e)
    else if k.hek_len == hef_svkey
    then some (stored_sv k, e)
    else if ltb (length k.hek_key) k.hek_len || not (ltb k.hek_len (2 ^ 31))
    then none
    else some (made, record e { world = mortal })

-- `goperl_hv_iterkey`: the length, and the address of the key.
pub iterkey : Guest → (Log → ℕ → List ℕ) → ℕ → Entries → (ℕ × ℕ) × Entries
unfolding he_hek
iterkey g text he e = let (hek, e') = he_hek g text he e in (((e'.heks hek).hek_len, hek), e')

-- `goperl_hv_iternextsv`: the value, the interned key and its length, or 0 at the end. `sv_pv`
-- answers `none` for a null pointer, whose length is 0.
pub iternextsv :
    Guest
    → (Log → ℕ → Option (List ℕ))
    → Bool
    → ℕ
    → List Chain
    → World
    → (ℕ × Option Pointer × ℕ) × List Chain × World
iternextsv g text room hv strings w =
    let (he, w₁) = do_op g hv_iternext hv 0 [] w in
    let (keysv, w₂) = do_op g hv_iterkeysv he 0 [] w₁ in
    let w₃ = record w₂ { log = emit (sv_pv keysv) w₂.log } in
    let (key, len, strings') : Option Pointer × ℕ × List Chain = elim (text w₂.log keysv) [
      | none ↦ (none, 0, strings)
      | some k ↦ (let (p, t) = intern room k strings in (p, length k % 2 ^ 32, t))
    ] in
    let (val, w₄) = do_op g hv_iterval hv he [] w₃ in
    if he == 0 then ((0, none, 0), strings, w₁) else ((val, key, len), strings', w₄)

-- The operations above that give an entry or read its key, as a module calls them.
pub data Use : Type 0 where
  fetching : ℕ → ℕ → Bool → Use
  storing : ℕ → ℕ → ℕ → Use
  iterating : ℕ → Use
  keyed : ℕ → Use
  sv_keyed : ℕ → Use

pub use_entry : Guest → (Log → ℕ → List ℕ) → Use → Entries → Entries
unfolding fetch_ent store_ent iternext he_hek he_svkey
use_entry g text (fetching hv keysv lval) e = (fetch_ent g hv keysv lval e).1
use_entry g text (storing hv keysv sv) e = (store_ent g hv keysv sv e).1
use_entry g text (iterating hv) e = (iternext g hv e).1
use_entry g text (keyed he) e = (he_hek g text he e).1
use_entry g text (sv_keyed he) e = (he_svkey g text he e).1

pub use_entries : Guest → (Log → ℕ → List ℕ) → List Use → Entries → Entries
unfolding use_entry
use_entries g text [] e = e
use_entries g text (u ∷ us) e = use_entries g text us (use_entry g text u e)
