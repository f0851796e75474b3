-- ===== src/Optree.antt =====
-- The op tree as a module sees it (xs/sdk/include/perl.h): host shadows of the interpreter's ops,
-- at addresses of the host, and the write-back of the fields that the module changed.
pub mod Clean
pub mod Kept
pub mod Sends
pub mod Examples
pub mod Registry
pub mod Build
pub mod Quiet
use go_perl.Prelude.{
  ℕ, zero, suc, ◌+◌, ◌-◌, ◌*◌, ◌%◌, ◌^◌, Bool, true, false, ◌&&◌, ◌||◌, not, Option, none, some,
  List, [], ◌∷◌, ◌++◌, ◌==◌, if◌then◌else◌,
}
use go_perl.Bridge.{Guest, World, perop_pp_set, emit}
use go_perl.Bridge.Op.{op_set}
use go_perl.Flush.{do_op}
use go_perl.Intern.{Chain, Pointer}

-- `struct goperl_op_base`; `op_other` is read from the storage of `op_last`.
pub record OpBase : Type 0 where
  pub op_next : ℕ
  pub op_sibparent : ℕ
  pub op_moresib : ℕ
  pub op_first : ℕ
  pub op_last : ℕ
  pub op_other : ℕ
  pub op_ppaddr : ℕ
  pub op_targ : ℕ
  pub op_type : ℕ
  pub op_flags : ℕ
  pub op_private : ℕ

-- `struct op` with the registry's `persist` in front of it. `op_last` and `op_other` share their
-- storage. `none` for a string is the empty
-- literal. The fields of the other classes stay out.
pub record Op : Type 0 where
  pub persist : Bool
  pub op_next : ℕ
  pub op_sibparent : ℕ
  pub op_ppaddr : ℕ
  pub op_targ : ℕ
  pub op_type : ℕ
  pub op_flags : ℕ
  pub op_private : ℕ
  pub gop_full : Bool
  pub op_moresib : ℕ
  pub gop : ℕ
  pub gop_base : Option OpBase
  pub op_first : ℕ
  pub op_last : ℕ
  pub op_redoop : ℕ
  pub gop_iscop : Bool
  pub cop_line : ℕ
  pub cop_hints : ℕ
  pub cop_file : Option Pointer
  pub cop_stashpv : Option Pointer

-- `goperl_opext_ent_t`: a token and the address of its shadow.
pub record Ext : Type 0 where
  pub tok : ℕ
  pub op : ℕ

-- The ops of the host by their addresses, null being 0; the chains of the registry, as addresses
-- of their ops; the list of long-lived shadows; the address that `calloc` gives next; the interned
-- strings.
pub record Optree : Type 0 where
  pub world : World
  pub ops : ℕ → Op
  pub buckets : List (List ℕ)
  pub opext : List Ext
  pub next : ℕ
  pub persist_mode : Bool
  pub strings : List Chain

-- A store of an op at an address.
pub write_op : ℕ → Op → (ℕ → Op) → ℕ → Op
write_op a o ops x = if x == a then o else ops x

-- What `goperl_op_base_capture` takes of an op.
pub captured : Op → OpBase
captured o = record {
  op_next = o.op_next;
  op_sibparent = o.op_sibparent;
  op_moresib = o.op_moresib;
  op_first = o.op_first;
  op_last = o.op_last;
  op_other = o.op_last;
  op_ppaddr = o.op_ppaddr;
  op_targ = o.op_targ;
  op_type = o.op_type;
  op_flags = o.op_flags;
  op_private = o.op_private;
}

-- `goperl_op_base_capture`
pub op_base_capture : ℕ → Optree → Optree
unfolding captured write_op
op_base_capture a t =
    let o = t.ops a in
    record t { ops = write_op a (record o { gop_base = some (captured o) }) t.ops }

-- The selectors of OP_SET.
abbrev pub opf_next : ℕ
opf_next = 0

abbrev pub opf_sibparent : ℕ
opf_sibparent = 1

abbrev pub opf_first : ℕ
opf_first = 2

abbrev pub opf_last : ℕ
opf_last = 3

abbrev pub opf_other : ℕ
opf_other = 4

abbrev pub opf_targ : ℕ
opf_targ = 5

abbrev pub opf_type : ℕ
opf_type = 6

abbrev pub opf_flags : ℕ
opf_flags = 7

abbrev pub opf_private : ℕ
opf_private = 8

abbrev pub opf_ppaddr_hook : ℕ
opf_ppaddr_hook = 9

-- `goperl_op_setfield`, for a 32-bit value.
pub op_setfield : Guest → ℕ → ℕ → ℕ → World → World
op_setfield g gop sel val w = (do_op g op_set gop (sel * 2 ^ 32 + val) [] w).1

-- `goperl_op_tok32`; `none` is the croak for an op that the interpreter does not have.
pub op_tok32 : (ℕ → Op) → ℕ → Option ℕ
op_tok32 ops kid =
    if kid == 0 then some 0 else if (ops kid).gop == 0 then none else some ((ops kid).gop % 2 ^ 32)

-- The writes so far, or the croak in the middle of them.
pub data Sent : Type 0 where
  sent : World → Sent
  scratch_linked : World → Sent

-- One `if (changed) goperl_op_setfield(f, o, sel, val)`.
pub write_field : Guest → ℕ → Bool → ℕ → Option ℕ → Sent → Sent
unfolding op_setfield
write_field g gop changed sel val (scratch_linked w) = scratch_linked w
write_field g gop false sel val (sent w) = sent w
write_field g gop true sel none (sent w) = scratch_linked w
write_field g gop true sel (some v) (sent w) = sent (op_setfield g gop sel v w)

abbrev pub differs : ℕ → ℕ → Bool
differs x y = not (x == y)

-- The selector of a changed sibling or parent: the bit 16 says which it is.
pub sibparent_selector : Op → ℕ
sibparent_selector o = opf_sibparent + (if o.op_moresib == 0 then 0 else 1) * 2 ^ 16

-- The comparisons of `goperl_op_flush_one` but the last.
pub write_fields : Guest → (ℕ → Op) → Op → OpBase → World → Sent
unfolding write_field op_tok32 sibparent_selector
write_fields g ops o b w =
    let next =
      write_field g o.gop (differs b.op_next o.op_next) opf_next (op_tok32 ops o.op_next)
        (sent w) in
    let sibling =
      write_field g o.gop
        (differs b.op_sibparent o.op_sibparent || differs b.op_moresib o.op_moresib)
        (sibparent_selector o) (op_tok32 ops o.op_sibparent) next in
    let first =
      write_field g o.gop (differs b.op_first o.op_first) opf_first (op_tok32 ops o.op_first)
        sibling in
    let last =
      write_field g o.gop (differs b.op_last o.op_last) opf_last (op_tok32 ops o.op_last) first in
    let other =
      write_field g o.gop (differs b.op_other o.op_last) opf_other (op_tok32 ops o.op_last) last in
    let targ =
      write_field g o.gop (differs b.op_targ o.op_targ) opf_targ (some (o.op_targ % 2 ^ 32))
        other in
    let type = write_field g o.gop (differs b.op_type o.op_type) opf_type (some o.op_type) targ in
    let flags =
      write_field g o.gop (differs b.op_flags o.op_flags) opf_flags (some o.op_flags) type in
    write_field g o.gop (differs b.op_private o.op_private) opf_private (some o.op_private) flags

-- The loop of `goperl_opext_put`: the list with the op put to its token, if the token is there.
pub opext_found : ℕ → ℕ → List Ext → Option (List Ext)
opext_found tok op [] = none
opext_found tok op (e ∷ rest) =
    let later = opext_found tok op rest in
    if e.tok == tok
    then some (record e { op = op } ∷ rest)
    else elim later [ none ↦ none | some rest' ↦ some (e ∷ rest') ]

-- `goperl_opext_put`
pub opext_put : ℕ → ℕ → List Ext → List Ext
unfolding opext_found
opext_put tok op list = elim (opext_found tok op list) [
  | none ↦ record { tok = tok; op = op } ∷ list
  | some list' ↦ list'
]

-- `goperl_perop_pp_register`, with a loader that has `perop_pp_set`.
pub perop_pp_register : Guest → ℕ → Optree → Optree
unfolding op_setfield write_op opext_put
perop_pp_register g a t =
    let o = t.ops a in
    let w = record (t.world) { log = emit (perop_pp_set o.gop o.op_ppaddr) t.world.log } in
    record t {
      world = op_setfield g o.gop opf_ppaddr_hook 0 w;
      ops = write_op a (record o { persist = true }) t.ops;
      opext = opext_put o.gop a t.opext;
    }

-- The end of a write-back, or the croak that left it.
pub data Flushed : Type 0 where
  flushed croaked : Optree → Flushed

-- The last comparison, of `op_ppaddr`, and the capture; `perop` says whether the loader has
-- `perop_pp_set`.
pub flush_end : Guest → Bool → ℕ → Bool → Optree → Sent → Flushed
unfolding perop_pp_register op_base_capture
flush_end g perop a hooked t (scratch_linked w) = croaked (record t { world = w })
flush_end g perop a false t (sent w) = flushed (op_base_capture a (record t { world = w }))
flush_end g false a true t (sent w) = croaked (record t { world = w })
flush_end g true a true t (sent w) =
    flushed (op_base_capture a (perop_pp_register g a (record t { world = w })))

-- `goperl_op_flush_one` behind its two tests.
pub flush_changes : Guest → Bool → ℕ → Optree → Option OpBase → Flushed
unfolding write_fields flush_end
flush_changes g perop a t none = flushed t
flush_changes g perop a t (some b) =
    let o = t.ops a in
    flush_end g perop a (differs b.op_ppaddr o.op_ppaddr) t (write_fields g t.ops o b t.world)

-- `goperl_op_flush_one`
pub op_flush_one : Guest → Bool → ℕ → Optree → Flushed
unfolding flush_changes
op_flush_one g perop a t =
    let changes = flush_changes g perop a t (t.ops a).gop_base in
    if (t.ops a).gop == 0 then flushed t else changes

-- The loop over a chain, and that over the chains.
pub flush_chain : Guest → Bool → List ℕ → Flushed → Flushed
unfolding op_flush_one
flush_chain g perop chain (croaked t) = croaked t
flush_chain g perop [] (flushed t) = flushed t
flush_chain g perop (a ∷ chain) (flushed t) = flush_chain g perop chain (op_flush_one g perop a t)

pub flush_chains : Guest → Bool → List (List ℕ) → Flushed → Flushed
unfolding flush_chain
flush_chains g perop [] r = r
flush_chains g perop (chain ∷ chains) r = flush_chains g perop chains (flush_chain g perop chain r)

-- `goperl_optree_flush`
pub optree_flush : Guest → Bool → Optree → Flushed
unfolding flush_chains
optree_flush g perop t = flush_chains g perop t.buckets (flushed t)
