-- ===== src/Bridge.antt =====
-- The boundary between an XS module and the embedded interpreter (xs/sdk/include/perl.h): the
-- vtable `goperl_api_t` that the loader injects, the calls through it, and the host state of the
-- SDK. The interpreter is no part of this code: what a call returns is a parameter.
pub mod Op
use go_perl.Prelude.{ℕ, Bool, true, false, Option, none, some, List, [], ◌∷◌, ◌++◌, length}
use go_perl.Bridge.Op.{GuestOp}

-- A call through the vtable, by the field that it goes through. A token, a pointer and an offset
-- are numbers, a string argument is the list of its bytes.
pub data Call : Type 0 where
  xs_op : GuestOp → ℕ → ℕ → List ℕ → Call
  sv_iv : ℕ → Call
  sv_pv : ℕ → Call
  perlio_def : List ℕ → Call
  guest_mem : ℕ → Call
  perop_pp_set : ℕ → ℕ → Call
  pp_hook_set : ℕ → Option ℕ → Call
  magic_ext : ℕ → ℕ → ℕ → ℕ → List ℕ → Call
  magic_chain : ℕ → Call
  magic_del : ℕ → ℕ → ℕ → Call
  magic_set_head : ℕ → ℕ → Call

abbrev pub Log : Type 0
Log = List Call

-- What the interpreter returns to a call, given the calls made before it, oldest first. A call
-- that runs Perl code which comes back into the module is outside this view.
pub record Guest : Type 0 where
  pub answer : Log → Call → ℕ

-- `goperl_plshadow_t`
pub record PlShadow : Type 0 where
  pub val : ℕ
  pub dirty : Bool

-- `goperl_ivmirror_t`; an IV is its 64-bit pattern.
pub record IvMirror : Type 0 where
  pub svtok : ℕ
  pub val : ℕ
  pub shadow : ℕ

-- `buf[i]` and `shadow[i]` of a `goperl_avmirror_t`
pub record Slot : Type 0 where
  pub buf : ℕ
  pub shadow : ℕ

-- `goperl_avmirror_t`: the first `len` entries of its two arrays, and their capacity.
pub record AvMirror : Type 0 where
  pub avtok : ℕ
  pub slots : List Slot
  pub cap : ℕ

-- One entry of the PL_ppaddr proxy: the slot of `goperl_ppaddr_v`, of `goperl_ppaddr_base_v` and
-- of `goperl_pp_installed_v`.
pub record PpSlot : Type 0 where
  pub addr : ℕ
  pub base : ℕ
  pub installed : Bool

-- The part of `goperl_shared_t` that holds host state pending for the guest; 0 for no SV in
-- `svcur_sv`. `ivmirrors` and `iv_free` are the entries of the 32-entry table before and from
-- `ivmirror_n` on: an entry that is no longer live keeps what it held.
pub record Shared : Type 0 where
  pub svcur_sv : ℕ
  pub svcur_val : ℕ
  pub svcur_orig : ℕ
  pub hints_slot : ℕ
  pub hints_base : ℕ
  pub hints_live : Bool
  pub plshadow : List PlShadow
  pub ivmirrors : List IvMirror
  pub iv_free : List IvMirror
  pub avmirrors : List AvMirror
  pub gen : ℕ

-- The fields of `goperl_frame_t` that the flush reads; the bits 0 and 1 of `hook_dirty`.
pub record Frame : Type 0 where
  pub die_dirty : Bool
  pub warn_dirty : Bool
  pub die_val : ℕ
  pub warn_val : ℕ

-- The proxy table: `goperl_ppaddr_inited_v` and the `OP_max` slots.
pub record PpTable : Type 0 where
  pub inited : Bool
  pub slots : List PpSlot

pub record World : Type 0 where
  pub log : Log
  pub shared : Shared
  pub frame : Frame
  pub pp : PpTable

-- A call whose result is not used.
abbrev pub emit : Call → Log → Log
emit c log = log ++ (c ∷ [])

-- The reasons for which the modelled operations croak.
pub data Croak : Type 0 where
  iv_mirrors_full av_mirrors_full : Croak

-- A croak leaves the operation by `longjmp`, with the state as it is then.
pub data Outcome (A : Type 0) : Type 0 where
  done : A → World → Outcome A
  croaked : Croak → World → Outcome A
