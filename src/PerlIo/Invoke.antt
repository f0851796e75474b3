-- ===== src/PerlIo/Invoke.antt =====
-- `__goperl_perlio_invoke`: a hook of a layer called by the interpreter's proxy. The request and
-- the response are byte lists; what the author's functions do is `hooks`.
pub mod Answer
use go_perl.Prelude.{
  ℕ, zero, suc, ◌+◌, ◌-◌, ◌*◌, ◌/◌, ◌%◌, ◌^◌, ◌<◌, ◌≤◌, ◌≡◌, ◌≢◌, ◌⊎◌, inl, inr, refl, sym, ap, ◌∙◌,
  Bool, true, false, ◌&&◌, ◌||◌, not, Option, none, some, List, [], ◌∷◌, ◌++◌, ltb, leb, ◌==◌,
  if◌then◌else◌, get_or, set, length, take, drop, bit_and, arith, length-set, Bool-cases,
}
use go_perl.Bridge.{Guest, World}
use go_perl.Text.{strlen, memcpy}
use go_perl.Text.Concat.{length-memcpy}
use go_perl.Format.{Printf, Position, string, vfmt}
use go_perl.PerlIo.{
  SlotName, Method, Tab, Base, Layer, Shadow, Handle, dist, Io, Ran, ran, raised, crashed, Args,
  Hooks, perlio_f_eof, perlio_f_error, perlio_f_wrbuf, perlio_f_rdbuf, and_not, pointer_diff,
}
use go_perl.PerlIo.Tail.{host_pointer}
use go_perl.PerlIo.Methods.{call, Returns, AllReturn, call-Returns}
use go_perl.PerlIo.Shadows.{iol_shadow, store_shadow, drop_shadow}

-- `memcpy(&v, bytes + at, 4)` for a 32-bit `v`, and the other way.
pub u32_at : List ℕ → ℕ → ℕ
u32_at bytes at =
    get_or bytes at 0
    + get_or bytes (at + 1) 0 * 2 ^ 8
    + get_or bytes (at + 2) 0 * 2 ^ 16
    + get_or bytes (at + 3) 0 * 2 ^ 24

pub put_u32 : List ℕ → ℕ → ℕ → List ℕ
put_u32 bytes at v =
    set
      (set (set (set bytes at (v % 2 ^ 8)) (at + 1) (v / 2 ^ 8 % 2 ^ 8)) (at + 2)
        (v / 2 ^ 16 % 2 ^ 8))
      (at + 3) (v / 2 ^ 24 % 2 ^ 8)

-- What the call leaves: the result, the response buffer, the shadows and the shared state; or that
-- a function called through a null pointer.
pub data Response : Type 0 where
  response : ℕ → List ℕ → List Shadow → Io → Response
  crash : Response

-- The end of a hook: the response, or the croak that goes to the `setjmp`.
pub data Hooked : Type 0 where
  hooked : ℕ → List ℕ → List Shadow → Io → Hooked
  croaked : List Shadow → Io → Hooked
  fault : Hooked

-- "layer '%s' Pushed failed"
abbrev pub pushed_failed : List ℕ
pushed_failed =
    b'l' ∷ b'a' ∷ b'y' ∷ b'e' ∷ b'r' ∷ b' ' ∷ 39 ∷ b'%' ∷ b's' ∷ 39 ∷ b' ' ∷ b'P' ∷ b'u' ∷ b's'
    ∷ b'h' ∷ b'e' ∷ b'd' ∷ b' ' ∷ b'f' ∷ b'a' ∷ b'i' ∷ b'l' ∷ b'e' ∷ b'd' ∷ []

-- `goperl_croakf` for that message: the frame behind it.
pub croak_pushed : Printf → List ℕ → Io → Io
croak_pushed e name io =
    let at : Position = record {
      fmt = pushed_failed;
      va = string (some name) ∷ [];
      world = io.world;
    } in
    elim (vfmt e io.err 512 at) [
      | none ↦ record io { failed = 1 }
      | some (err, w) ↦ record io { failed = 1; err = err; world = w }
    ]

-- A hook of the table called with the layer's handle; a null pointer is not checked for.
pub run_hook : Guest → Hooks → Option Method → Args → Shadow → Io → Ran
run_hook g hooks none a s io = crashed
run_hook g hooks (some m) a s io = call g hooks m dist a s io

-- The case PUSHED behind the call: the flags that the hook set and cleared.
pub pushed_end : Printf → Tab → ℕ → List ℕ → List Shadow → Ran → Hooked
unfolding put_u32 croak_pushed
pushed_end e tab before resp list crashed = fault
pushed_end e tab before resp list (raised s io) = croaked (store_shadow s list) io
pushed_end e tab before resp list (ran code s io) =
    let after = s.layer.base.flags in
    let setf = put_u32 resp 1 (and_not after before) in
    let list' = store_shadow s list in
    if code == 0
    then hooked 9 (put_u32 setf 5 (and_not before after)) list' io
    else croaked list' (croak_pushed e tab.name io)

-- The case PUSHED, for the shadow that `goperl_iol_shadow` found.
pub invoke_pushed :
    Printf → Guest → Hooks → Tab → List ℕ → List ℕ → Shadow × List Shadow → Io → Hooked
unfolding u32_at run_hook pushed_end
invoke_pushed e g hooks tab req resp (s, list) io =
    let long = leb 21 (length req) in
    let rest = drop 20 req in
    let args : Args = record {
      first = if long then u32_at req 16 else 0;
      second = 0;
      mode = if long then take (strlen rest) rest else b'r' ∷ [];
      tab = some tab;
    } in
    pushed_end e tab s.layer.base.flags resp list
      (run_hook g hooks (tab.slot SlotName.pushed) args s io)

-- The flags that FILL reports.
abbrev pub fill_flags : ℕ
fill_flags = perlio_f_eof + perlio_f_error + perlio_f_rdbuf

-- The case FILL behind the call: the status, the offsets in the buffer and the flags.
pub fill_end : List ℕ → List Shadow → Ran → Hooked
unfolding put_u32
fill_end resp list crashed = fault
fill_end resp list (raised s io) = croaked (store_shadow s list) io
fill_end resp list (ran code s io) =
    let b = s.layer in
    let status = put_u32 resp 1 (if code == 0 then 0 else 1) in
    let ptr_off = put_u32 status 5 (pointer_diff b.ptr b.buf % 2 ^ 32) in
    let end_off = put_u32 ptr_off 9 (pointer_diff b.last b.buf % 2 ^ 32) in
    hooked 17 (put_u32 end_off 13 (bit_and b.base.flags fill_flags)) (store_shadow s list) io

-- The layer's struct before FILL: an empty buffer at the window, and the guest's sticky flags.
pub window_layer : ℕ → ℕ → ℕ → Layer → Layer
window_layer hbuf bufsiz gflags b = record b {
  base = record (b.base) { flags = and_not gflags (perlio_f_rdbuf + perlio_f_wrbuf) };
  buf = hbuf;
  bufsiz = bufsiz;
  ptr = hbuf;
  last = hbuf;
}

pub invoke_fill : Guest → Hooks → Tab → List ℕ → List ℕ → Shadow × List Shadow → Io → Hooked
unfolding u32_at run_hook fill_end window_layer
invoke_fill g hooks tab req resp (s, list) io =
    let long = leb 28 (length req) in
    let gbuf = if long then u32_at req 16 else 0 in
    let bufsiz = if long then u32_at req 20 else 0 in
    let gflags = if long then u32_at req 24 else 0 in
    let (hbuf, io') = host_pointer g gbuf io in
    let s' = record s { layer = window_layer hbuf bufsiz gflags s.layer } in
    let args : Args = record { first = 0; second = 0; mode = []; tab = none } in
    fill_end resp list
      (run_hook g hooks (tab.slot SlotName.fill) args s' (record io' { gbuf = gbuf; hbuf = hbuf }))

-- The `switch` on the hook's number.
pub run_request : ℕ → Printf → Guest → Hooks → Tab → List ℕ → List ℕ → List Shadow → Io → Hooked
unfolding u32_at invoke_pushed invoke_fill
run_request address e g hooks tab req resp list io =
    let hook = u32_at req 0 in
    let ltok = u32_at req 12 in
    let shadow = iol_shadow address tab ltok (u32_at req 8) list in
    if hook == 1
    then invoke_pushed e g hooks tab req resp shadow io
    else if hook == 2
    then invoke_fill g hooks tab req resp shadow io
    else if hook == 3
    then hooked 1 resp (drop_shadow ltok list) io
    else hooked 1 resp list io

-- The return, with `prev_jb` and `prev_frame` back in place.
pub leave_invoke : ℕ → ℕ → ℕ → List ℕ → Hooked → Response
leave_invoke prev_jb prev_frame respcap resp (hooked rlen resp' list io) =
    response rlen resp' list (record io { jb = prev_jb; cur_frame = prev_frame })
leave_invoke prev_jb prev_frame respcap resp (croaked list io) =
    let len = strlen io.err in
    let ml = if ltb (respcap - 1) len then respcap - 1 else len in
    response (1 + ml) (memcpy (set resp 0 0) 1 io.err ml) list
      (record io { failed = 0; jb = prev_jb; cur_frame = prev_frame })
leave_invoke prev_jb prev_frame respcap resp fault = crash

-- `__goperl_perlio_invoke`: `own` is its `jmp_buf` and `frame` its frame, `address` where a new
-- shadow would be allocated.
pub perlio_invoke :
    ℕ → ℕ → ℕ → Printf → Guest → Hooks → Tab → List ℕ → List ℕ → ℕ → List Shadow → Io → Response
unfolding run_request leave_invoke
perlio_invoke address own frame e g hooks tab req resp respcap list io =
    let entered = record io { jb = own; cur_frame = frame } in
    let resp' = set resp 0 1 in
    if ltb (length req) 16 || ltb respcap 32
    then response 0 resp list io
    else leave_invoke io.jb io.cur_frame respcap resp'
        (run_request address e g hooks tab req resp' list entered)
