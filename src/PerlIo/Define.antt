-- ===== src/PerlIo/Define.antt =====
-- `PerlIO_define_layer`: which tables the interpreter's proxy layer can stand for.
use go_perl.Prelude.{
  ℕ, suc, ◌+◌, ◌-◌, ◌%◌, ◌^◌, ◌≡◌, ◌⊎◌, inl, inr, refl, sym, ap, ◌∙◌, Bool, true, false, Option,
  none, some, List, [], ◌∷◌, ◌==◌, ==_iff, ==_refl, if◌then◌else◌, All, Bool-cases, get_or,
  get_elem?, take, ltb, arith,
}
use mathlib.Core.Path.{subst}
use go_perl.Bridge.{Guest, perlio_def, emit}
use go_perl.Bridge.Op.{perlio_def_layer}
use go_perl.Flush.{do_op}
use go_perl.PerlIo.{
  SlotName, Method, Tab, Io, custom, tail_pushed, tail_read, tail_flush, tail_fill, tail_eof,
  tail_error, tail_get_ptr, tail_get_cnt, tail_set_ptrcnt, buf_pushed, buf_popped, buf_open,
  base_binmode, base_fileno, buf_dup, buf_read, base_unread, buf_write, buf_seek, buf_tell,
  buf_close, buf_flush, buf_fill, base_eof, base_error, base_clearerr, base_setlinebuf,
  buf_get_base, buf_bufsiz, buf_get_ptr, buf_get_cnt, buf_set_ptrcnt,
}

-- The stock functions and the tail's, in an order that tells them apart as their addresses do.
abbrev methods : List Method
methods =
    tail_pushed ∷ tail_read ∷ tail_flush ∷ tail_fill ∷ tail_eof ∷ tail_error ∷ tail_get_ptr
    ∷ tail_get_cnt ∷ tail_set_ptrcnt ∷ buf_pushed ∷ buf_popped ∷ buf_open ∷ base_binmode
    ∷ base_fileno ∷ buf_dup ∷ buf_read ∷ base_unread ∷ buf_write ∷ buf_seek ∷ buf_tell ∷ buf_close
    ∷ buf_flush ∷ buf_fill ∷ base_eof ∷ base_error ∷ base_clearerr ∷ base_setlinebuf ∷ buf_get_base
    ∷ buf_bufsiz ∷ buf_get_ptr ∷ buf_get_cnt ∷ buf_set_ptrcnt ∷ []

pub place : Method → ℕ
place tail_pushed = 0
place tail_read = 1
place tail_flush = 2
place tail_fill = 3
place tail_eof = 4
place tail_error = 5
place tail_get_ptr = 6
place tail_get_cnt = 7
place tail_set_ptrcnt = 8
place buf_pushed = 9
place buf_popped = 10
place buf_open = 11
place base_binmode = 12
place base_fileno = 13
place buf_dup = 14
place buf_read = 15
place base_unread = 16
place buf_write = 17
place buf_seek = 18
place buf_tell = 19
place buf_close = 20
place buf_flush = 21
place buf_fill = 22
place base_eof = 23
place base_error = 24
place base_clearerr = 25
place base_setlinebuf = 26
place buf_get_base = 27
place buf_bufsiz = 28
place buf_get_ptr = 29
place buf_get_cnt = 30
place buf_set_ptrcnt = 31
place (custom n) = n + 32

abbrev method_at : ℕ → Method
method_at n = if ltb n 32 then get_or methods n tail_pushed else custom (n - 32)

method_at-place : (m : Method) → method_at (place m) ≡ m
unfolding place
method_at-place tail_pushed = refl
method_at-place (custom n) =
    let big : ltb (n + 32) 32 ≡ false = ground arith in rw big (ap custom (omega arith))
method_at-place _ = refl

place-injective : (m k : Method) → place m ≡ place k → m ≡ k
place-injective m k h = sym (method_at-place m) ∙ ap method_at h ∙ method_at-place k

-- The comparison of two pointers to functions.
pub same : Method → Method → Bool
unfolding place
same m k = place m == place k

same-eq : (m k : Method) → same m k ≡ true → m ≡ k
unfolding same
same-eq m k h = place-injective m k ((==_iff (place m) (place k)).0 h)

same_refl : (m : Method) → same m m ≡ true
unfolding same
same_refl m = ==_refl (place m)

-- The stock function of each slot that has one.
pub stock : SlotName → Option Method
stock SlotName.pushed = some buf_pushed
stock SlotName.popped = some buf_popped
stock SlotName.open_file = some buf_open
stock SlotName.binmode = some base_binmode
stock SlotName.getarg = none
stock SlotName.fileno = some base_fileno
stock SlotName.dup = some buf_dup
stock SlotName.read = some buf_read
stock SlotName.unread = some base_unread
stock SlotName.write = some buf_write
stock SlotName.seek = some buf_seek
stock SlotName.tell = some buf_tell
stock SlotName.close = some buf_close
stock SlotName.flush = some buf_flush
stock SlotName.fill = some buf_fill
stock SlotName.eof = some base_eof
stock SlotName.error = some base_error
stock SlotName.clearerr = some base_clearerr
stock SlotName.setlinebuf = some base_setlinebuf
stock SlotName.get_base = some buf_get_base
stock SlotName.get_bufsiz = some buf_bufsiz
stock SlotName.get_ptr = some buf_get_ptr
stock SlotName.get_cnt = some buf_get_cnt
stock SlotName.set_ptrcnt = some buf_set_ptrcnt

-- The slots that are checked, in their order.
abbrev pub required : List SlotName
required =
    SlotName.popped ∷ SlotName.open_file ∷ SlotName.binmode ∷ SlotName.fileno ∷ SlotName.dup
    ∷ SlotName.read ∷ SlotName.unread ∷ SlotName.write ∷ SlotName.seek ∷ SlotName.tell
    ∷ SlotName.close ∷ SlotName.flush ∷ SlotName.eof ∷ SlotName.error ∷ SlotName.clearerr
    ∷ SlotName.setlinebuf ∷ SlotName.get_base ∷ SlotName.get_bufsiz ∷ SlotName.get_ptr
    ∷ SlotName.get_cnt ∷ SlotName.set_ptrcnt ∷ []

-- A function that is not the stock one of its slot; a null pointer is none.
pub customized : Option Method → Option Method → Bool
unfolding same
customized none k = false
customized (some m) none = true
customized (some m) (some k) = if same m k then false else true

-- The first slot that makes the code croak.
pub refused_slot : Tab → List SlotName → Option SlotName
unfolding customized stock
refused_slot tab [] = none
refused_slot tab (slot ∷ slots) =
    let rest = refused_slot tab slots in
    if customized (tab.slot slot) (stock slot) then some slot else rest

-- What the definition of a layer comes to. A refusal carries the slot that the message of the croak
-- names, and the state in which `goperl_croakf` is called, which then writes `failed` and `err`.
pub data Defined : Type 0 where
  defined : Io → Defined
  refused : SlotName → Io → Defined

pub mask_of : Tab → ℕ
unfolding customized stock
mask_of tab =
    (if customized (tab.slot SlotName.fill) (stock SlotName.fill) then 2 else 0)
    + (if customized (tab.slot SlotName.pushed) (stock SlotName.pushed) then 1 else 0)

-- `PerlIO_define_layer`
pub define_layer : Guest → Tab → Io → Defined
unfolding refused_slot mask_of
define_layer g tab io =
    let call = perlio_def tab.name in
    let id = g.answer io.world.log call % 2 ^ 32 in
    let named = record (io.world) { log = emit call io.world.log } in
    let (r, w) = do_op g perlio_def_layer id (mask_of tab) tab.name named in
    elim (refused_slot tab required) [
      | some slot ↦ refused slot io
      | none ↦ defined (record io { world = w })
    ]

-- A slot that the proxy layer can stand for.
abbrev pub IsStock : Tab → SlotName → Type 0
IsStock tab slot = (tab.slot slot ≡ none) ⊎ (tab.slot slot ≡ stock slot)

customized-IsStock : (m k : Option Method) → customized m k ≡ false → (m ≡ none) ⊎ (m ≡ k)
unfolding customized
customized-IsStock none k h = inl refl
customized-IsStock (some m) none h = absurd cc
customized-IsStock (some m) (some k) h = elim (Bool-cases (same m k)) [
  | inl e ↦ inr (ap some (same-eq m k e))
  | inr e ↦ absurd (ground arith)
]

IsStock-customized : (m k : Option Method) → (m ≡ none) ⊎ (m ≡ k) → customized m k ≡ false
unfolding customized
IsStock-customized none k h = refl
IsStock-customized (some m) k (inl e) = absurd cc
IsStock-customized (some m) k (inr e) =
    subst (λ j. customized (some m) j ≡ false) e (rw (same_refl m) refl)

-- The check of some slots: all are stock, or the first that is not.
Checked : Tab → List SlotName → Option SlotName → Type 0
Checked tab slots r =
    ((r ≡ none) × All (IsStock tab) slots)
    ⊎ ((i : ℕ) × (slot : SlotName) × (r ≡ some slot)
        × (get_elem? slots i ≡ some slot)
        × ¬ (IsStock tab slot)
        × All (IsStock tab) (take i slots))

refused_slot-Checked :
    (tab : Tab) (slots : List SlotName) → Checked tab slots (refused_slot tab slots)
unfolding refused_slot Checked
refused_slot-Checked tab [] = inl (refl, tt)
refused_slot-Checked tab (slot ∷ slots) =
    elim (Bool-cases (customized (tab.slot slot) (stock slot))) [
      | inl e ↦
          let odd : ¬ (IsStock tab slot) =
            λ h. absurd (ground (arith, IsStock-customized (tab.slot slot) (stock slot) h)) in
          rw e (inr (0, slot, refl, refl, odd, tt))
      | inr e ↦
          let here = customized-IsStock (tab.slot slot) (stock slot) e in
          rw e (elim (refused_slot-Checked tab slots) [
            | inl (r, h) ↦ inl (r, (here, h))
            | inr (i, other, r, at, odd, h) ↦ inr (suc i, other, r, at, odd, (here, h))
          ])
    ]

-- A layer is registered exactly if each checked slot is null or the stock function, whatever
-- Pushed, Fill and Getarg hold: the interpreter is then told the layer's name and the mask of the
-- two custom hooks, in one operation behind the loader's registration. Otherwise the code croaks
-- for the first slot that is neither, and nothing was called.
pub define_layer_lem :
    (g : Guest) (tab : Tab) (io : Io)
    → let call = perlio_def tab.name in
      let id = g.answer io.world.log call % 2 ^ 32 in
      let named = record (io.world) { log = emit call io.world.log } in
      let told = do_op g perlio_def_layer id (mask_of tab) tab.name named in
      (All (IsStock tab) required
        × (define_layer g tab io ≡ defined (record io { world = told.1 })))
      ⊎ ((i : ℕ) × (slot : SlotName) × (get_elem? required i ≡ some slot)
          × ¬ (IsStock tab slot)
          × All (IsStock tab) (take i required)
          × (define_layer g tab io ≡ refused slot io))
unfolding define_layer Checked
define_layer_lem g tab io = elim (refused_slot-Checked tab required) [
  | inl (r, h) ↦ inl (h, rw (define_layer, r) refl)
  | inr (i, slot, r, at, odd, h) ↦ inr (i, slot, at, odd, h, rw (define_layer, r) refl)
]
