-- ===== src/Optree/Build.antt =====
-- Full shadows, the shadows of COPs, and the operations that build and change the op tree.
pub mod Kids
use go_perl.Prelude.{
  ℕ, zero, suc, ◌+◌, ◌-◌, ◌*◌, ◌/◌, ◌%◌, ◌^◌, Bool, true, false, ◌&&◌, ◌||◌, not, Option, none,
  some, List, [], ◌∷◌, ◌++◌, ◌==◌, if◌then◌else◌, length,
}
use go_perl.Bridge.{Guest, World, Log, guest_mem, emit}
use go_perl.Bridge.Op.{
  GuestOp, op_ptr, cop_line, cop_hints, cop_file, cop_stashpv, plvar_get, optree_new, optree_misc,
}
use go_perl.Flush.{do_op}
use go_perl.Intern.{Pointer, intern_packed}
use go_perl.Optree.{Op, Optree, Flushed, flushed, croaked, write_op, optree_flush}
use go_perl.Optree.Registry.{op_shadow, op_pull, shadow_of}

-- The bytes of the interpreter that an address and a length, packed in one number, stand for.
abbrev pub GuestText : Type 0
GuestText = Log → ℕ → Option (List ℕ)

-- A string of the interpreter, interned: the answer of the operation, and `goperl_intern_packed`.
pub interned : Guest → GuestText → GuestOp → ℕ → Optree → Option Pointer × Optree
interned g text op tok t =
    let (packed, w) = do_op g op tok 0 [] t.world in
    let seen = record w { log = emit (guest_mem (packed / 2 ^ 32)) w.log } in
    let (p, strings) = intern_packed true packed (text w.log packed) t.strings in
    let pointer : Option Pointer = elim p [ none ↦ none | some q ↦ q ] in
    (pointer, record t { world = if packed == 0 then w else seen; strings = strings })

-- `goperl_op_fill_cop`
pub op_fill_cop : Guest → GuestText → ℕ → Optree → Optree
unfolding interned write_op
op_fill_cop g text a t =
    let tok = (t.ops a).gop in
    let (line, w) = do_op g cop_line tok 0 [] t.world in
    let (hints, w') = do_op g cop_hints tok 0 [] w in
    let (file, t₁) = interned g text cop_file tok (record t { world = w' }) in
    let (stashpv, t₂) = interned g text cop_stashpv tok t₁ in
    record t₂ {
      ops =
          write_op a
            (record (t.ops a) {
              gop_iscop = true;
              cop_line = line % 2 ^ 32;
              cop_hints = hints % 2 ^ 32;
              cop_file = file;
              cop_stashpv = stashpv;
            })
            t₂.ops;
    }

-- `OP_NEXTSTATE` and `OP_DBSTATE`
abbrev pub op_nextstate : ℕ
op_nextstate = 202

abbrev pub op_dbstate : ℕ
op_dbstate = 203

-- `goperl_op_shadow_full` behind its test: the links, and the fields of a COP.
pub fill_shadow : Guest → GuestText → ℕ → Optree → Optree
unfolding op_fill_cop write_op
fill_shadow g text a t =
    let t₁ =
      op_pull g a (record t { ops = write_op a (record (t.ops a) { gop_full = true }) t.ops }) in
    let o = t₁.ops a in
    let type = if o.op_type == 0 then o.op_targ % 2 ^ 32 else o.op_type in
    let cop = op_fill_cop g text a t₁ in
    if not o.gop_iscop && (type == op_nextstate || type == op_dbstate) then cop else t₁

-- `goperl_op_shadow_full`
pub op_shadow_full : Guest → GuestText → ℕ → Optree → ℕ × Optree
unfolding fill_shadow
op_shadow_full g text tok t =
    let (a, t₁) = op_shadow g tok t in
    let filled = fill_shadow g text a t₁ in
    if a == 0 || (t₁.ops a).gop_full then (a, t₁) else (a, filled)

-- `goperl_op_refresh`
pub op_refresh : Guest → ℕ → Optree → Optree
op_refresh g a t =
    let pulled = op_pull g a t in
    if not (a == 0) && not ((t.ops a).gop == 0) && (t.ops a).gop_full then pulled else t

-- `goperl_op_refresh_tok`
pub op_refresh_tok : Guest → ℕ → Optree → Optree
unfolding op_refresh
op_refresh_tok g tok t =
    let (a, t₁) = op_shadow g tok t in
    let refreshed = op_refresh g a t₁ in if tok == 0 then t else refreshed

-- `goperl_cop_shadow`
pub cop_shadow : Guest → GuestText → ℕ → Optree → ℕ × Optree
unfolding op_shadow_full op_fill_cop
cop_shadow g text tok t =
    let (a, t₁) = op_shadow_full g text tok t in
    let filled = op_fill_cop g text a t₁ in
    if not (a == 0) && not (t₁.ops a).gop_iscop then (a, filled) else (a, t₁)

-- `GOPERL_PL_CURCOP`
abbrev pub pl_curcop : ℕ
pl_curcop = 6

-- `goperl_curcop`: a COP, or `none` for the dummy `goperl_nullcop_v`.
pub curcop : Guest → GuestText → Optree → Option ℕ × Optree
unfolding cop_shadow
curcop g text t =
    let (tok, w) = do_op g plvar_get pl_curcop 0 [] t.world in
    let t₁ = record t { world = w } in
    let (a, t₂) = cop_shadow g text tok t₁ in if tok == 0 then (none, t₁) else (some a, t₂)

-- `goperl_op_sibling`
pub op_sibling : Guest → GuestText → ℕ → Optree → ℕ × Optree
unfolding op_shadow_full
op_sibling g text a t =
    let o = t.ops a in
    let linked = if o.op_moresib == 0 then 0 else o.op_sibparent in
    let (tok, w) = do_op g op_ptr o.gop 1 [] t.world in
    let asked = op_shadow_full g text tok (record t { world = w }) in
    if a == 0 then (0, t) else if o.gop_full || (o.gop == 0) then (linked, t) else asked

-- The end of an operation on the tree: the op, 0 for none, or the croak that left it.
pub data Built : Type 0 where
  built : ℕ → Optree → Built
  left : Optree → Built

-- A number as the eight bytes that `memcpy` takes.
unfoldable pub bytes_64 : ℕ → ℕ → List ℕ
bytes_64 zero v = []
bytes_64 (suc n) v = v % 2 ^ 8 ∷ bytes_64 n (v / 2 ^ 8)

abbrev pub token_bytes_64 : ℕ → List ℕ
token_bytes_64 v = bytes_64 8 v

-- `goperl_newop` behind the write-back.
pub newop_flushed : Guest → GuestText → ℕ → ℕ → ℕ → ℕ → ℕ → Optree → ℕ × Optree
unfolding op_refresh_tok op_shadow_full
newop_flushed g text cls type flags k₁ k₂ t =
    let (tok, w) =
      do_op g optree_new (cls % 2 ^ 32 * 2 ^ 32 + type % 2 ^ 32) (flags % 2 ^ 32)
        (token_bytes_64 k₁ ++ token_bytes_64 k₂) t.world in
    op_shadow_full g text tok (op_refresh_tok g k₂ (op_refresh_tok g k₁ (record t { world = w })))

-- `goperl_newop`
pub newop : Guest → Bool → GuestText → ℕ → ℕ → ℕ → ℕ → ℕ → Optree → Built
unfolding newop_flushed
newop g perop text cls type flags k₁ k₂ t = elim (optree_flush g perop t) [
  | croaked t' ↦ left t'
  | flushed t' ↦ (let (a, t₂) = newop_flushed g text cls type flags k₁ k₂ t' in built a t₂)
]

-- The token of an op pointer, 0 for null.
abbrev pub token_of : Optree → ℕ → ℕ
token_of t a = if a == 0 then 0 else (t.ops a).gop

-- `GOPERL_OPC_CONDOP`
abbrev pub opc_condop : ℕ
opc_condop = 10

-- `goperl_newcondop`
pub newcondop : Guest → Bool → GuestText → ℕ → ℕ → ℕ → ℕ → Optree → Built
unfolding op_shadow_full
newcondop g perop text flags cond tru fls t =
    let kids =
      token_bytes_64 (token_of t cond)
      ++ token_bytes_64 (token_of t tru)
      ++ token_bytes_64 (token_of t fls) in
    elim (optree_flush g perop t) [
      | croaked t' ↦ left t'
      | flushed t' ↦
          (let (tok, w) = do_op g optree_new (opc_condop * 2 ^ 32) (flags % 2 ^ 32) kids t'.world in
            let (a, t₂) = op_shadow_full g text tok (record t' { world = w }) in built a t₂)
    ]

-- An op that the interpreter does not have.
abbrev pub is_scratch : Optree → ℕ → Bool
is_scratch t a = not (a == 0) && ((t.ops a).gop == 0)

-- `GOPERL_OPM_FREE` and `GOPERL_OPM_SIBLING_SPLICE`
abbrev pub opm_free : ℕ
opm_free = 7

abbrev pub opm_sibling_splice : ℕ
opm_sibling_splice = 10

-- `goperl_op_misc3` behind the write-back.
pub misc_flushed : Guest → GuestText → ℕ → ℕ → ℕ → List ℕ → ℕ → ℕ → Optree → ℕ × Optree
unfolding op_refresh op_shadow_full
misc_flushed g text sel aux aux₂ toks a b t =
    let (tok, w) =
      do_op g optree_misc (sel % 2 ^ 32 * 2 ^ 32 + aux % 2 ^ 32) (aux₂ % 2 ^ 32) toks t.world in
    let t₁ = record t { world = w } in
    let t₂ = op_refresh g b (op_refresh g a t₁) in
    let shadow = op_shadow_full g text tok t₂ in
    if sel == opm_free then (0, t₁) else if tok == 0 then (0, t₂) else shadow

-- `goperl_op_misc3`
pub op_misc3 : Guest → Bool → GuestText → ℕ → ℕ → ℕ → ℕ → ℕ → Optree → Built
unfolding misc_flushed
op_misc3 g perop text sel aux aux₂ a b t =
    let toks = token_bytes_64 (token_of t a) ++ token_bytes_64 (token_of t b) in
    let done : Built = elim (optree_flush g perop t) [
      | croaked t' ↦ left t'
      | flushed t' ↦ (let (p, t₂) = misc_flushed g text sel aux aux₂ toks a b t' in built p t₂)
    ] in
    if is_scratch t a || is_scratch t b then left t else done

-- `goperl_op_sibling_splice` behind the write-back.
pub splice_flushed : Guest → GuestText → ℕ → List ℕ → ℕ → ℕ → ℕ → Optree → ℕ × Optree
unfolding op_refresh op_shadow_full
splice_flushed g text del_count toks parent start insert t =
    let (tok, w) =
      do_op g optree_misc (opm_sibling_splice * 2 ^ 32 + del_count % 2 ^ 32) 0 toks t.world in
    let t₁ =
      op_refresh g insert (op_refresh g start (op_refresh g parent (record t { world = w }))) in
    let shadow = op_shadow_full g text tok t₁ in if tok == 0 then (0, t₁) else shadow

-- `goperl_op_sibling_splice`
pub op_sibling_splice : Guest → Bool → GuestText → ℕ → ℕ → ℕ → ℕ → Optree → Built
unfolding splice_flushed
op_sibling_splice g perop text parent start del_count insert t =
    let toks =
      token_bytes_64 (token_of t parent)
      ++ token_bytes_64 (token_of t start)
      ++ token_bytes_64 (token_of t insert) in
    let done : Built = elim (optree_flush g perop t) [
      | croaked t' ↦ left t'
      | flushed t' ↦
          (let (p, t₂) = splice_flushed g text del_count toks parent start insert t' in built p t₂)
    ] in
    if is_scratch t parent || is_scratch t start || is_scratch t insert then left t else done
