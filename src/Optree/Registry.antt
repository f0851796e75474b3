-- ===== src/Optree/Registry.antt =====
-- The registry of op shadows: one host op for each token while a native activation lasts.
pub mod Identity
use go_perl.Prelude.{
  ℕ, zero, suc, ◌+◌, ◌-◌, ◌*◌, ◌/◌, ◌%◌, ◌^◌, Bool, true, false, ◌&&◌, ◌||◌, not, Option, none,
  some, List, [], ◌∷◌, ◌++◌, ◌==◌, if◌then◌else◌, get_or, set, length, map,
}
use go_perl.Bridge.{Guest, World, Log}
use go_perl.Bridge.Op.{op_ptr, op_fields, cop_line, cop_hints, cop_file, cop_stashpv, plvar_get}
use go_perl.Flush.{do_op}
use go_perl.Intern.{intern_packed}
use go_perl.Optree.{OpBase, Op, Ext, Optree, write_op, op_base_capture}

-- `GOPERL_OPREG_BUCKETS`
abbrev pub opreg_buckets : ℕ
opreg_buckets = 1024

abbrev pub bucket_of : ℕ → ℕ
bucket_of tok = tok / 2 ^ 3 % 2 ^ 32 % opreg_buckets

-- The loop over a chain.
unfoldable pub find_op : (ℕ → Op) → ℕ → List ℕ → Option ℕ
find_op ops tok [] = none
find_op ops tok (a ∷ chain) =
    let later = find_op ops tok chain in if (ops a).gop == tok then some a else later

-- `GOPERL_OPPTR_IS_HOOKED`
abbrev pub opptr_is_hooked : ℕ
opptr_is_hooked = 7

-- The loop over the long-lived shadows: the one of the token, if its op still dispatches to the
-- host, and the list without those of the token whose op is gone.
pub opext_scan : Guest → ℕ → List Ext → World → Option ℕ × List Ext × World
opext_scan g tok [] w = (none, [], w)
opext_scan g tok (e ∷ rest) w =
    let asked = do_op g op_ptr tok opptr_is_hooked [] w in
    let dropped = opext_scan g tok rest asked.1 in
    let passed = opext_scan g tok rest w in
    if e.tok == tok
    then if asked.0 == 0 then dropped else (some e.op, e ∷ rest, asked.1)
    else (passed.0, e ∷ passed.1, passed.2)

-- An op put in front of its chain.
pub link_op : ℕ → ℕ → List (List ℕ) → List (List ℕ)
link_op tok a buckets = set buckets (bucket_of tok) (a ∷ get_or buckets (bucket_of tok) [])

-- The answer of OP_FIELDS taken apart.
pub take_fields : ℕ → Op → Op
take_fields fields o = record o {
  op_type = fields % 2 ^ 16;
  op_flags = fields / 2 ^ 16 % 2 ^ 8;
  op_private = fields / 2 ^ 24 % 2 ^ 8;
  op_targ = fields / 2 ^ 32 % 2 ^ 32;
}

-- What `calloc` gives.
abbrev pub blank : Op
blank = record {
  persist = false;
  op_next = 0;
  op_sibparent = 0;
  op_ppaddr = 0;
  op_targ = 0;
  op_type = 0;
  op_flags = 0;
  op_private = 0;
  gop_full = false;
  op_moresib = 0;
  gop = 0;
  gop_base = none;
  op_first = 0;
  op_last = 0;
  op_redoop = 0;
  gop_iscop = false;
  cop_line = 0;
  cop_hints = 0;
  cop_file = none;
  cop_stashpv = none;
}

-- The shadow of a token that has none: a new op, with the scalar fields.
pub new_shadow : Guest → ℕ → Optree → ℕ × Optree
unfolding write_op link_op take_fields
new_shadow g tok t =
    let (fields, w) = do_op g op_fields tok 0 [] t.world in
    let o : Op = record blank { persist = t.persist_mode; gop = tok } in
    (
      t.next,
      record t {
        world = w;
        ops = write_op t.next (take_fields fields o) t.ops;
        buckets = link_op tok t.next t.buckets;
        next = suc t.next;
      },
    )

-- What follows the loop over the long-lived shadows: the one found is linked again.
pub after_scan : Guest → ℕ → Optree → Option ℕ → ℕ × Optree
unfolding link_op new_shadow
after_scan g tok t none = new_shadow g tok t
after_scan g tok t (some a) = (a, record t { buckets = link_op tok a t.buckets })

-- The lookup of a token that its chain does not have.
pub shadow_unlinked : Guest → ℕ → Optree → ℕ × Optree
unfolding opext_scan after_scan
shadow_unlinked g tok t =
    let (found, opext, w) = opext_scan g tok t.opext t.world in
    after_scan g tok (record t { opext = opext; world = w }) found

-- `goperl_op_shadow`
pub op_shadow : Guest → ℕ → Optree → ℕ × Optree
unfolding find_op shadow_unlinked
op_shadow g tok t =
    let made = shadow_unlinked g tok t in
    let found = find_op t.ops tok (get_or t.buckets (bucket_of tok) []) in
    if tok == 0 then (0, t) else elim found [ some a ↦ (a, t) | none ↦ made ]

-- `goperl_op_shadow(f, goperl_do_op(f, GOPERL_OP_OP_PTR, tok, sel, 0, 0))`
pub shadow_of : Guest → ℕ → ℕ → Optree → ℕ × Optree
unfolding op_shadow
shadow_of g tok sel t =
    let (p, w) = do_op g op_ptr tok sel [] t.world in op_shadow g p (record t { world = w })

-- `goperl_op_pull`
pub op_pull : Guest → ℕ → Optree → Optree
unfolding shadow_of take_fields op_base_capture write_op
op_pull g a t =
    let tok = (t.ops a).gop in
    let (fields, w) = do_op g op_fields tok 0 [] t.world in
    let put = λ (f : Op → Op) (u : Optree). record u { ops = write_op a (f (u.ops a)) u.ops } in
    let t₀ = put (take_fields fields) (record t { world = w }) in
    let (next, t₁) = shadow_of g tok 0 t₀ in
    let (first, t₂) = shadow_of g tok 2 (put (λ o. record o { op_next = next }) t₁) in
    let (redoop, t₃) = shadow_of g tok 3 (put (λ o. record o { op_first = first }) t₂) in
    let (last, t₄) = shadow_of g tok 4 (put (λ o. record o { op_redoop = redoop }) t₃) in
    let (other, t₅) = shadow_of g tok 5 t₄ in
    let lastish = if last == 0 then other else last in
    let t₆ = put (λ o. record o { op_last = lastish }) (if last == 0 then t₅ else t₄) in
    let (moresib, w') = do_op g op_ptr tok 6 [] t₆.world in
    let more = moresib % 2 ^ 8 in
    let t₇ = put (λ o. record o { op_moresib = more }) (record t₆ { world = w' }) in
    let (sibling, t₈) = shadow_of g tok 1 t₇ in
    let sibparent = if more == 0 then 0 else sibling in
    op_base_capture a
      (put (λ o. record o { op_sibparent = sibparent }) (if more == 0 then t₇ else t₈))

-- `goperl_opreg_clear`: the chains are emptied. An op that is not kept is freed, and no pointer to it
-- is followed again.
pub opreg_clear : Optree → Optree
opreg_clear t = record t { buckets = map (λ chain. []) t.buckets }
