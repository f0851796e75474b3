-- ===== src/Save.antt =====
-- The host save stack of xs/sdk/include/perl.h: host locations that ENTER and LEAVE, or the return
-- of the XSUB, restore. Memory is an array of 32-bit words: an `int32_t` is one of them, a pointer
-- the two from its address on, the low half first. Locations are aligned to words.
pub mod Undo
pub mod Examples
pub mod Activation
pub mod Restore
use go_perl.Prelude.{
  ℕ, zero, suc, ◌+◌, ◌-◌, ◌*◌, ◌/◌, ◌%◌, ◌^◌, Bool, true, false, ◌||◌, Option, none, some, List, [],
  ◌∷◌, ltb, leb, ◌==◌, if◌then◌else◌, length,
}
use go_perl.Bridge.{Guest, World}
use go_perl.Bridge.Op.{enter, leave}
use go_perl.Flush.{do_op}

abbrev pub Memory : Type 0
Memory = ℕ → ℕ

pub store : Memory → ℕ → ℕ → Memory
store m a v x = if x == a then v % 2 ^ 32 else m x

abbrev pub load_ptr : Memory → ℕ → ℕ
load_ptr m a = m a + m (a + 1) * 2 ^ 32

pub store_ptr : Memory → ℕ → ℕ → Memory
unfolding store
store_ptr m a v = store (store m a v) (a + 1) (v / 2 ^ 32)

-- `(intptr_t)` of an `int32_t`, both as bit patterns.
abbrev pub sign_extend : ℕ → ℕ
sign_extend v = if ltb v (2 ^ 31) then v else v + (2 ^ 64 - 2 ^ 32)

-- `goperl_hostsave_t`
pub record HostSave : Type 0 where
  pub loc : ℕ
  pub val : ℕ
  pub scope : ℕ
  pub width : ℕ

abbrev pub hostsave_max : ℕ
hostsave_max = 256

-- The host state: the memory, the stack with its top first, and `goperl_scope_v`, whose signed
-- 32-bit value is kept with 2^31 added to it, which keeps the order.
pub record Host : Type 0 where
  pub memory : Memory
  pub saves : List HostSave
  pub scope : ℕ
  pub world : World

-- `goperl_hostsave_ptr`; `none` is the croak.
pub hostsave_ptr : ℕ → Host → Option Host
hostsave_ptr loc h =
    if leb hostsave_max (length h.saves)
    then none
    else some (record h {
      saves =
          record { loc = loc; val = load_ptr h.memory loc; scope = h.scope; width = 0 } ∷ h.saves;
    })

-- `goperl_hostsave_i32`
pub hostsave_i32 : ℕ → Host → Option Host
hostsave_i32 loc h =
    if leb hostsave_max (length h.saves)
    then none
    else some (record h {
      saves =
          record { loc = loc; val = sign_extend (h.memory loc); scope = h.scope; width = 4 }
          ∷ h.saves;
    })

-- The body of the loop of `goperl_hostsave_unwind_to`.
pub restore : HostSave → Memory → Memory
unfolding store_ptr store
restore e m = if e.width == 4 then store m e.loc e.val else store_ptr m e.loc e.val

-- Its loop.
pub unwind : ℕ → List HostSave → Memory → List HostSave × Memory
unwind base [] m = ([], m)
unwind base (e ∷ es) m =
    let rest = unwind base es (restore e m) in
    if ltb base (suc (length es)) then rest else (e ∷ es, m)

pub hostsave_unwind_to : ℕ → Host → Host
hostsave_unwind_to base h =
    let (es, m) = unwind base h.saves h.memory in record h { saves = es; memory = m }

-- `ENTER`
pub enter_scope : Guest → Host → Host
enter_scope g h = record h {
  scope = (h.scope + 1) % 2 ^ 32;
  world = (do_op g enter 0 0 [] h.world).1;
}

-- The loop of `goperl_leave`.
pub leave_loop : ℕ → List HostSave → Memory → List HostSave × Memory
leave_loop scope [] m = ([], m)
leave_loop scope (e ∷ es) m =
    let rest = leave_loop scope es (store_ptr m e.loc e.val) in
    if leb scope e.scope then rest else (e ∷ es, m)

-- `goperl_leave`
pub leave_scope : Guest → Host → Host
leave_scope g h =
    let (es, m) = leave_loop h.scope h.saves h.memory in
    record h {
      saves = es;
      memory = m;
      scope = (h.scope + (2 ^ 32 - 1)) % 2 ^ 32;
      world = (do_op g leave 0 0 [] h.world).1;
    }

-- What a module does between: it saves locations and writes to memory.
pub data Action : Type 0 where
  save_ptr save_i32 : ℕ → Action
  write : ℕ → ℕ → Action

pub act : Action → Host → Option Host
act (save_ptr loc) h = hostsave_ptr loc h
act (save_i32 loc) h = hostsave_i32 loc h
act (write loc v) h = some (record h { memory = store h.memory loc v })

-- `none` once an action croaks.
pub run : List Action → Host → Option Host
run [] h = some h
run (a ∷ rest) h = elim (act a h) [ none ↦ none | some h' ↦ run rest h' ]
