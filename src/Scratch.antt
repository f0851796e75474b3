-- ===== src/Scratch.antt =====
-- The tables behind `save_destructor_x` and `SSNEW` (xs/sdk/include/perl.h): what a scope of the
-- interpreter calls back when it is popped. A function and a block are addresses, 0 for null; a
-- call of a destructor is its function and its argument.
pub mod Slots
pub mod Blocks
pub mod Examples
use go_perl.Prelude.{
  ℕ, zero, suc, ◌+◌, ◌-◌, ◌%◌, ◌^◌, Bool, true, false, ◌||◌, ◌&&◌, not, Option, none, some, List,
  [], ltb, leb, ◌==◌, if◌then◌else◌, get_or, set,
}
use go_perl.Bridge.{Guest, World}
use go_perl.Bridge.Op.{save_destructor}
use go_perl.Flush.{do_op}

-- `GOPERL_DTOR_MAX` and `GOPERL_SSNEW_MAX`
abbrev pub dtor_max : ℕ
dtor_max = 4096

-- `goperl_dtor_t`
pub record Dtor : Type 0 where
  pub fn : ℕ
  pub arg : ℕ
  pub used : Bool

abbrev pub no_dtor : Dtor
no_dtor = record { fn = 0; arg = 0; used = false }

-- The two tables of `goperl_shared_t` with their hints; the blocks of `goperl_ssnew_t`.
pub record Tables : Type 0 where
  pub dtors : List Dtor
  pub dtor_hint : ℕ
  pub ssnew : List ℕ
  pub ssnew_hint : ℕ
  pub world : World

-- The loop that looks for a slot from the hint on, `left` rounds from `k` to go.
pub scan : (ℕ → Bool) → ℕ → ℕ → ℕ → Option ℕ
scan free hint k zero = none
scan free hint k (suc left) =
    let i = (hint + k) % dtor_max in
    let rest = scan free hint (k + 1) left in if free i then some i else rest

pub dtor_free : Tables → ℕ → Bool
dtor_free t i = not (get_or t.dtors i no_dtor).used

-- `goperl_save_destructor_x`; `none` is the croak of a full table.
pub save_destructor_x : Guest → ℕ → ℕ → Tables → Option Tables
unfolding scan dtor_free
save_destructor_x g fn arg t = elim (scan (dtor_free t) t.dtor_hint 0 dtor_max) [
  | none ↦ none
  | some id ↦ some (record t {
    dtor_hint = id + 1;
    dtors = set t.dtors id (record { fn = fn; arg = arg; used = true });
    world = (do_op g save_destructor (id + 1) 0 [] t.world).1;
  })
]

-- `__goperl_dtor_invoke` up to its call: the function and the argument that it calls, if any, and
-- the state in which it does.
pub dtor_invoke : ℕ → Tables → Option (ℕ × ℕ) × Tables
dtor_invoke id1 t =
    let d = get_or t.dtors (id1 - 1) no_dtor in
    let freed = record t { dtors = set t.dtors (id1 - 1) (record d { used = false }) } in
    if id1 == 0 || ltb dtor_max id1
    then (none, t)
    else if not d.used || d.fn == 0
    then (none, freed)
    else (some (d.fn, d.arg), freed)

pub ssnew_free : Tables → ℕ → Bool
ssnew_free t i = get_or t.ssnew i 0 == 0

-- `goperl_ssnew` where `calloc` returns `block` and the address of `goperl_ssnew_free_cb` is
-- `free_cb`; the result is the index of the block.
pub ssnew_alloc : Guest → ℕ → ℕ → Tables → Option (ℕ × Tables)
unfolding scan ssnew_free save_destructor_x
ssnew_alloc g free_cb block t = elim (scan (ssnew_free t) t.ssnew_hint 0 dtor_max) [
  | none ↦ none
  | some ix ↦
      let t1 = record t { ssnew_hint = ix + 1; ssnew = set t.ssnew ix block } in
      let saved = save_destructor_x g free_cb ix t1 in
      if block == 0 then none else elim saved [ none ↦ none | some t2 ↦ some (ix, t2) ]
]

-- `goperl_ssnew_free_cb`
pub ssnew_free_cb : ℕ → Tables → Tables
ssnew_free_cb ix t =
    if ltb ix dtor_max && not (get_or t.ssnew ix 0 == 0)
    then record t { ssnew = set t.ssnew ix 0 }
    else t
