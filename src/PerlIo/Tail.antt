-- ===== src/PerlIo/Tail.antt =====
-- The functions of the tail node, which forward to the guest layer below the proxy, and their
-- table. The owner of the tail is the shadow that it stands in.
use go_perl.Prelude.{ℕ, ◌+◌, ◌/◌, ◌%◌, ◌^◌, ◌<◌, ◌≤◌, ◌≡◌, refl, Option, none, some, [], arith}
use go_perl.Bridge.{Guest, guest_mem, Log, emit}
use go_perl.Bridge.Op.{
  GuestOp, perlio_next_read, perlio_next_fill, perlio_state, perlio_next_getptr, perlio_next_getcnt,
  perlio_next_setptrcnt,
}
use go_perl.Flush.{do_op, pack32}
use go_perl.PerlIo.{
  SlotName, Method, Tab, Shadow, Io, Ran, ran, tail_kind, pointer_diff, tail_pushed, tail_read,
  tail_flush, tail_fill, tail_eof, tail_error, tail_get_ptr, tail_get_cnt, tail_set_ptrcnt,
}

-- A guest operation on the handle below, with its result.
pub next_op : Guest → GuestOp → ℕ → Shadow → Io → ℕ × Io
next_op g op b s io = let (r, w) = do_op g op s.ff b [] io.world in (r, record io { world = w })

-- `goperl_api_v->guest_mem`, a call that the flush does not precede.
pub host_pointer : Guest → ℕ → Io → ℕ × Io
host_pointer g gp io =
    let call = guest_mem gp in
    (
      g.answer io.world.log call,
      record io { world = record (io.world) { log = emit call io.world.log } },
    )

-- The guest address of a pointer into the fill window.
pub window_address : Io → ℕ → ℕ
window_address io vbuf = (io.gbuf + pointer_diff vbuf io.hbuf % 2 ^ 32) % 2 ^ 32

-- `goperl_tail_read`
unfoldable pub read_below : Guest → ℕ → ℕ → Shadow → Io → Ran
unfolding next_op window_address
read_below g vbuf count s io =
    let (got, io') = next_op g perlio_next_read (pack32 (window_address io vbuf) count) s io in
    ran got s io'

-- `goperl_tail_fill`
unfoldable pub fill_below : Guest → Shadow → Io → Ran
unfolding next_op
fill_below g s io = let (r, io') = next_op g perlio_next_fill 0 s io in ran r s io'

-- `goperl_tail_eof`
unfoldable pub eof_below : Guest → Shadow → Io → Ran
unfolding next_op
eof_below g s io = let (r, io') = next_op g perlio_state 0 s io in ran (r % 2) s io'

-- `goperl_tail_error`
unfoldable pub error_below : Guest → Shadow → Io → Ran
unfolding next_op
error_below g s io = let (r, io') = next_op g perlio_state 0 s io in ran (r / 2 % 2) s io'

-- `goperl_tail_flush`
unfoldable pub flush_below : Guest → Shadow → Io → Ran
unfolding next_op
flush_below g s io = let (r, io') = next_op g perlio_state 1 s io in ran r s io'

-- `goperl_tail_get_ptr`
unfoldable pub get_ptr_below : Guest → Shadow → Io → Ran
unfolding next_op host_pointer
get_ptr_below g s io =
    let (gp, io') = next_op g perlio_next_getptr 0 s io in
    let (hp, io'') = host_pointer g (gp % 2 ^ 32) io' in ran hp s io''

-- `goperl_tail_get_cnt`
unfoldable pub get_cnt_below : Guest → Shadow → Io → Ran
unfolding next_op
get_cnt_below g s io = let (r, io') = next_op g perlio_next_getcnt 0 s io in ran r s io'

-- `goperl_tail_set_ptrcnt`
unfoldable pub set_ptrcnt_below : Guest → ℕ → ℕ → Shadow → Io → Ran
unfolding next_op host_pointer
set_ptrcnt_below g ptr cnt s io =
    let (r, io') = next_op g perlio_next_getptr 0 s io in
    let gp = r % 2 ^ 32 in
    let (hp, io'') = host_pointer g gp io' in
    let gnew = (gp + pointer_diff ptr hp % 2 ^ 32) % 2 ^ 32 in
    let (done, io''') = next_op g perlio_next_setptrcnt (pack32 gnew cnt) s io'' in ran 0 s io'''

pub tail_slot : SlotName → Option Method
tail_slot SlotName.pushed = some tail_pushed
tail_slot SlotName.popped = none
tail_slot SlotName.open_file = none
tail_slot SlotName.binmode = none
tail_slot SlotName.getarg = none
tail_slot SlotName.fileno = none
tail_slot SlotName.dup = none
tail_slot SlotName.read = some tail_read
tail_slot SlotName.unread = none
tail_slot SlotName.write = none
tail_slot SlotName.seek = none
tail_slot SlotName.tell = none
tail_slot SlotName.close = none
tail_slot SlotName.flush = some tail_flush
tail_slot SlotName.fill = some tail_fill
tail_slot SlotName.eof = some tail_eof
tail_slot SlotName.error = some tail_error
tail_slot SlotName.clearerr = none
tail_slot SlotName.setlinebuf = none
tail_slot SlotName.get_base = none
tail_slot SlotName.get_bufsiz = none
tail_slot SlotName.get_ptr = some tail_get_ptr
tail_slot SlotName.get_cnt = some tail_get_cnt
tail_slot SlotName.set_ptrcnt = some tail_set_ptrcnt

-- `goperl_tail_funcs_v`; its name is not read.
pub tail_funcs : Tab
unfolding tail_slot
tail_funcs = record { name = []; size = 32; kind = tail_kind; slot = tail_slot }

-- The interpreter's memory stands in one piece in the host's.
abbrev pub Linear : Guest → ℕ → Type 0
Linear g base = (log : Log) (gp : ℕ) → g.answer log (guest_mem gp) ≡ base + gp

pub window_arith :
    (base now at : ℕ)
    → now < 2 ^ 32
    → at < 2 ^ 32
    → base + 2 ^ 32 ≤ 2 ^ 64
    → (now + pointer_diff (base + at) (base + now) % 2 ^ 32) % 2 ^ 32 ≡ at
window_arith base now at h k l = omega arith

-- A read into the fill window, at the host pointer to the guest address `at`, asks the layer below
-- to read to `at`, and gives its answer: the window is the interpreter's memory seen from the host.
pub read_below_lem :
    (g : Guest) (base at count : ℕ) (s : Shadow) (io : Io)
    → io.hbuf ≡ base + io.gbuf
    → io.gbuf < 2 ^ 32
    → at < 2 ^ 32
    → base + 2 ^ 32 ≤ 2 ^ 64
    → let below = do_op g perlio_next_read s.ff (pack32 at count) [] io.world in
      read_below g (base + at) count s io ≡ ran below.0 s (record io { world = below.1 })
unfolding read_below next_op window_address
read_below_lem g base at count s io window h k l =
    rw (window, window_arith base io.gbuf at h k l) refl

-- After `PerlIO_set_ptrcnt` on the tail with the host pointer to the guest address `at`, the layer
-- below was told `at` and the count, whatever its own pointer was; the interpreter's memory stands
-- in one piece in the host's.
pub set_ptrcnt_below_lem :
    (g : Guest) (base at cnt : ℕ) (s : Shadow) (io : Io)
    → Linear g base
    → at < 2 ^ 32
    → base + 2 ^ 32 ≤ 2 ^ 64
    → let asked = do_op g perlio_next_getptr s.ff 0 [] io.world in
      let seen = record (asked.1) { log = emit (guest_mem (asked.0 % 2 ^ 32)) asked.1.log } in
      set_ptrcnt_below g (base + at) cnt s io
      ≡ ran 0 s
          (record io { world = (do_op g perlio_next_setptrcnt s.ff (pack32 at cnt) [] seen).1 })
unfolding set_ptrcnt_below next_op host_pointer
set_ptrcnt_below_lem g base at cnt s io linear h l =
    let asked = do_op g perlio_next_getptr s.ff 0 [] io.world in
    let now = asked.0 % 2 ^ 32 in
    rw (linear asked.1.log now, window_arith base now at (omega arith) h l) refl
