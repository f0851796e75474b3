-- ===== src/Save/Activation.antt =====
-- The activation protocol of xs/sdk/include/perl.h: what `dXSARGS` does at the entry of an XSUB,
-- `goperl_xs_leave` at its return, the `setjmp` branch of `dXSARGS` after a croak, and the loader's
-- `__goperl_xs_epilogue`. A frame is the address of its first word; its fields lie at their ABI
-- offsets. The arena and the registry of opcode shadows, which the outermost leave empties, are
-- outside this state.
pub mod Entry
pub mod Leave
pub mod Hooks
pub mod Examples
use go_perl.Prelude.{
  ℕ, zero, suc, ◌+◌, ◌-◌, ◌^◌, Bool, true, false, ◌&&◌, not, Option, none, some, List, [], ◌∷◌,
  ◌++◌, ltb, leb, ◌==◌, if◌then◌else◌, length,
}
use go_perl.Bridge.{World}
use go_perl.Flush.{flush}
use go_perl.Save.{
  Memory, store, load_ptr, store_ptr, Host, hostsave_ptr, hostsave_i32, hostsave_unwind_to,
}

-- The offsets +16, +44 and +112 of `goperl_frame_t`, in words.
abbrev pub jb_at : ℕ → ℕ
jb_at frame = frame + 4

abbrev pub base_at : ℕ → ℕ
base_at frame = frame + 11

abbrev pub prev_at : ℕ → ℕ
prev_at frame = frame + 28

-- The host state, `goperl_cur_frame_v` (0 for none) and `goperl_xs_depth_v`.
pub record Activation : Type 0 where
  pub host : Host
  pub cur_frame : ℕ
  pub xs_depth : ℕ

-- The three assignments to the fields of the frame.
pub arm : ℕ → ℕ → ℕ → ℕ → Memory → Memory
arm frame jb base prev_cur m =
    store_ptr
      (store (store_ptr m (prev_at frame) (if frame == prev_cur then frame else prev_cur))
        (base_at frame) base)
      (jb_at frame) jb

-- `dXSARGS` up to its `setjmp`, with `jb` the address of the new `jmp_buf`; `none` is the croak of
-- a full save stack.
pub xs_enter : ℕ → ℕ → Activation → Option Activation
unfolding arm
xs_enter frame jb a = elim (hostsave_i32 (base_at frame) a.host) [
  | none ↦ none
  | some h1 ↦ elim (hostsave_ptr (prev_at frame) h1) [
    | none ↦ none
    | some h2 ↦ elim (hostsave_ptr (jb_at frame) h2) [
      | none ↦ none
      | some h3 ↦ some (record {
        host = record h3 { memory = arm frame jb (length a.host.saves) a.cur_frame h3.memory };
        cur_frame = frame;
        xs_depth = a.xs_depth + 1;
      })
    ]
  ]
]

-- What the outermost leave resets: the mirrors and the scope counter.
pub at_rest : Host → Host
at_rest h = record h {
  scope = 2 ^ 31;
  world = record (h.world) {
    shared = record (h.world.shared) {
      avmirrors = [];
      ivmirrors = [];
      iv_free = h.world.shared.ivmirrors ++ h.world.shared.iv_free;
    };
  };
}

-- `goperl_xs_leave`
pub xs_leave : ℕ → Activation → Activation
unfolding at_rest
xs_leave frame a =
    let leave_prev = load_ptr a.host.memory (prev_at frame) in
    let flushed = record (a.host) { world = flush a.host.world } in
    let h = hostsave_unwind_to (a.host.memory (base_at frame)) flushed in
    let outermost = leb a.xs_depth 1 in
    record {
      host = if outermost then at_rest h else h;
      cur_frame = leave_prev;
      xs_depth = if outermost then 0 else a.xs_depth - 1;
    }

-- The branch of `dXSARGS` that a croak returns to.
pub xs_croaked : ℕ → Activation → Activation
xs_croaked frame a =
    xs_leave frame (record a { host = hostsave_unwind_to (a.host.memory (base_at frame)) a.host })

-- The loop of `__goperl_xs_epilogue`, on the rounds that are left: the activation and the number
-- of levels that it closed.
pub epilogue_loop : ℕ → ℕ → Activation → Activation × ℕ
epilogue_loop zero frame a = (a, 0)
epilogue_loop (suc left) frame a =
    let prev = load_ptr a.host.memory (prev_at frame) in
    let a' = xs_leave frame a in
    let (last, n) = epilogue_loop left frame a' in
    if a.cur_frame == frame && ltb 0 a.xs_depth
    then if prev == frame then (last, n + 1) else (a', 1)
    else (a, 0)

pub xs_epilogue : ℕ → Activation → Activation × ℕ
unfolding epilogue_loop
xs_epilogue frame a = epilogue_loop 64 frame a
