-- ===== src/Save/Activation/Hooks.antt =====
-- The entries by which the loader runs a hook of a module: `__goperl_pp_invoke` for one execution of
-- an op, and `__goperl_svt_invoke` for a function of magic. The hooks are parameters; a croak in
-- one leaves it by `longjmp`, to the entry.
pub mod Marks
pub mod Ends
pub mod Examples
use go_perl.Prelude.{
  ℕ, zero, suc, ◌+◌, ◌-◌, ◌%◌, ◌^◌, Bool, ◌&&◌, ◌||◌, not, List, leb, ltb, ◌==◌, if◌then◌else◌,
  length,
}
use go_perl.Bridge.{Guest, World}
use go_perl.Optree.{Optree}
use go_perl.Optree.Registry.{opreg_clear}
use go_perl.Optree.Build.{GuestText, op_shadow_full, op_refresh}
use go_perl.Save.{Memory, store, load_ptr, store_ptr, Host, hostsave_unwind_to}
use go_perl.Save.Activation.{jb_at, base_at, prev_at, Activation, xs_leave}

-- The activation and the op shadows; the world is that of the activation.
pub record HookState : Type 0 where
  pub act : Activation
  pub tree : Optree

-- How a hook ends: with the op to run next (0 for null), or in a croak, with the words of `err`
-- that the message leaves and the state in which it croaks.
pub data Ended : Type 0 where
  finished : ℕ → HookState → Ended
  croaked : (ℕ → ℕ) → HookState → Ended

-- The offsets +28, +96 and +4608 of `failed`, `plop` and `err`, in words; `err` has 128 of them.
abbrev pub failed_at : ℕ → ℕ
failed_at frame = frame + 7

abbrev pub plop_at : ℕ → ℕ
plop_at frame = frame + 24

abbrev pub err_at : ℕ → ℕ
err_at frame = frame + 1152

abbrev pub err_words : ℕ
err_words = 128

-- The words that a croak writes: `failed` and `err`.
pub marked : ℕ → ℕ → Bool
marked frame x = x == failed_at frame || (leb (err_at frame) x && ltb x (err_at frame + err_words))

-- `goperl_croakf` up to its `longjmp`.
pub croak_marks : ℕ → (ℕ → ℕ) → Memory → Memory
unfolding marked
croak_marks frame err m x =
    let mark = if x == failed_at frame then 1 else err (x - err_at frame) % 2 ^ 32 in
    if marked frame x then mark else m x

-- The state in which a croak arrives at the entry.
pub raised : ℕ → (ℕ → ℕ) → Activation → Activation
unfolding croak_marks
raised frame err a = record a {
  host = record (a.host) { memory = croak_marks frame err a.host.memory };
}

-- The assignments to the frame's `jb`, `prev_frame` and `hostsave_base`.
pub pp_armed : ℕ → ℕ → ℕ → ℕ → Memory → Memory
pp_armed frame own prev base m =
    store (store_ptr (store_ptr m (jb_at frame) own) (prev_at frame) prev) (base_at frame) base

-- The entry up to `setjmp`; `own` is the address of the new `jmp_buf`.
pub pp_enter : ℕ → ℕ → Activation → Activation
unfolding pp_armed
pp_enter frame own a = record {
  host = record (a.host) {
    memory = pp_armed frame own a.cur_frame (length a.host.saves) a.host.memory;
  };
  cur_frame = frame;
  xs_depth = a.xs_depth + 1;
}

-- The assignment to `f->plop`, and the op read anew if its shadow outlives the activation.
pub pp_shadow : Guest → GuestText → ℕ → ℕ → HookState → ℕ × HookState
pp_shadow g text frame tok s =
    let (a, t) = op_shadow_full g text tok (record (s.tree) { world = s.act.host.world }) in
    let refreshed = op_refresh g a t in
    let o = t.ops a in
    let t' = if not (a == 0) && not (o.gop == 0) && o.persist then refreshed else t in
    (
      a,
      record {
        act = record (s.act) {
          host = record (s.act.host) {
            memory = store_ptr s.act.host.memory (plop_at frame) a;
            world = t'.world;
          };
        };
        tree = t';
      },
    )

-- `goperl_xs_leave` with the clearing of the registry.
pub pp_left : ℕ → HookState → HookState
pp_left frame s = record {
  act = xs_leave frame s.act;
  tree = if leb s.act.xs_depth 1 then opreg_clear s.tree else s.tree;
}

-- The end of the call: the token of the next op, or 0.
pub pp_end : ℕ → Ended → ℕ × HookState
unfolding pp_left raised
pp_end frame (finished next s) = (if next == 0 then 0 else (s.tree.ops next).gop, pp_left frame s)
pp_end frame (croaked err s) =
    let a = raised frame err s.act in
    let host = hostsave_unwind_to (a.host.memory (base_at frame)) a.host in
    (0, pp_left frame (record s { act = record a { host = host } }))

-- `__goperl_pp_invoke` for the op with the token `tok`.
pub pp_invoke : Guest → GuestText → ℕ → ℕ → ℕ → (ℕ → HookState → Ended) → HookState → ℕ × HookState
unfolding pp_enter pp_shadow pp_end
pp_invoke g text frame own tok hook s =
    let (plop, s') = pp_shadow g text frame tok (record s { act = pp_enter frame own s.act }) in
    pp_end frame (hook plop s')

-- The end of `__goperl_svt_invoke`: its result, and what it kept in its variables put back.
pub svt_end : ℕ → ℕ → ℕ → Ended → ℕ × Activation
unfolding raised
svt_end frame prev_jb prev_frame (finished r s) =
    let a = s.act in
    (
      1,
      record a {
        host = record (a.host) { memory = store_ptr a.host.memory (jb_at frame) prev_jb };
        cur_frame = prev_frame;
      },
    )
svt_end frame prev_jb prev_frame (croaked err s) =
    let a = raised frame err s.act in
    let cleared = store a.host.memory (failed_at frame) 0 in
    (
      0,
      record a {
        host = record (a.host) { memory = store_ptr cleared (jb_at frame) prev_jb };
        cur_frame = prev_frame;
      },
    )

-- `__goperl_svt_invoke`; the op shadows are those that the hook sees.
pub svt_invoke : ℕ → ℕ → (HookState → Ended) → HookState → ℕ × Activation
unfolding svt_end
svt_invoke frame own hook s =
    let a = s.act in
    svt_end frame (load_ptr a.host.memory (jb_at frame)) a.cur_frame (
      hook (record s {
        act = record a {
          host = record (a.host) { memory = store_ptr a.host.memory (jb_at frame) own };
          cur_frame = frame;
        };
      }))
