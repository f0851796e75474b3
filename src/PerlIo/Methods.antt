-- ===== src/PerlIo/Methods.antt =====
-- The stock functions of a layer, what each function of a table does, and the dispatchers
-- `PerlIO_read` and the others, which call it.
use go_perl.Prelude.{
  ℕ, ◌+◌, ◌%◌, ◌^◌, Bool, true, false, Option, none, some, ◌==◌, if◌then◌else◌, bit_and,
}
use go_perl.Bridge.{Guest}
use go_perl.Bridge.Op.{perlio_next_fastgets}
use go_perl.PerlIo.{
  SlotName, Method, Tab, Base, Shadow, Handle, null, dist, tail, Io, Ran, ran, raised, crashed,
  Args, Hooks, perlio_f_eof, perlio_f_error, perlio_k_fastgets, and_not, pointer_diff, minus_one,
  custom, tail_pushed, tail_read, tail_flush, tail_fill, tail_eof, tail_error, tail_get_ptr,
  tail_get_cnt, tail_set_ptrcnt, buf_pushed, buf_popped, buf_open, base_binmode, base_fileno,
  buf_dup, buf_read, base_unread, buf_write, buf_seek, buf_tell, buf_close, buf_flush, buf_fill,
  base_eof, base_error, base_clearerr, base_setlinebuf, buf_get_base, buf_bufsiz, buf_get_ptr,
  buf_get_cnt, buf_set_ptrcnt,
}
use go_perl.PerlIo.Tail.{
  read_below, fill_below, eof_below, error_below, flush_below, get_ptr_below, get_cnt_below,
  set_ptrcnt_below, next_op,
}

-- `PerlIOBase(f)`
pub base_of : Handle → Shadow → Base
base_of null s = s.layer.base
base_of dist s = s.layer.base
base_of tail s = s.tail

pub set_flags : Handle → ℕ → Shadow → Shadow
set_flags null v s = s
set_flags dist v s = record s {
  layer = record (s.layer) { base = record (s.layer.base) { flags = v } };
}
set_flags tail v s = record s { tail = record (s.tail) { flags = v } }

-- `PerlIOBuf_pushed`
pub pushed_stock : Option Tab → Shadow → Shadow
pushed_stock none s = s
pushed_stock (some tab) s = record s {
  layer = record (s.layer) {
    base = record (s.layer.base) { tab = tab };
    buf = 0;
    last = 0;
    ptr = 0;
    bufsiz = 0;
    posn = 0;
  };
}

-- `(flags & mask) != 0`, as a number.
pub has_flag : ℕ → ℕ → ℕ
has_flag flags mask = if bit_and flags mask == 0 then 0 else 1

-- `PerlIOBuf_set_ptrcnt`
pub set_ptrcnt_stock : ℕ → ℕ → Shadow → Shadow
set_ptrcnt_stock ptr cnt s = record s {
  layer = record (s.layer) { ptr = ptr; last = (ptr + cnt) % 2 ^ 64 };
}

-- What a function of a table does with a handle; those that the author wrote are `hooks`.
pub call : Guest → Hooks → Method → Handle → Args → Shadow → Io → Ran
unfolding base_of set_flags pushed_stock has_flag set_ptrcnt_stock
call g hooks tail_pushed h a s io = ran 0 s io
call g hooks tail_read h a s io = read_below g a.first a.second s io
call g hooks tail_flush h a s io = flush_below g s io
call g hooks tail_fill h a s io = fill_below g s io
call g hooks tail_eof h a s io = eof_below g s io
call g hooks tail_error h a s io = error_below g s io
call g hooks tail_get_ptr h a s io = get_ptr_below g s io
call g hooks tail_get_cnt h a s io = get_cnt_below g s io
call g hooks tail_set_ptrcnt h a s io = set_ptrcnt_below g a.first a.second s io
call g hooks buf_pushed h a s io = ran 0 (pushed_stock a.tab s) io
call g hooks buf_popped h a s io = ran 0 s io
call g hooks buf_open h a s io = ran 0 s io
call g hooks base_binmode h a s io = ran 0 s io
call g hooks base_fileno h a s io = ran minus_one s io
call g hooks buf_dup h a s io = ran 0 s io
call g hooks buf_read h a s io = ran minus_one s io
call g hooks base_unread h a s io = ran minus_one s io
call g hooks buf_write h a s io = ran minus_one s io
call g hooks buf_seek h a s io = ran minus_one s io
call g hooks buf_tell h a s io = ran 0 s io
call g hooks buf_close h a s io = ran 0 s io
call g hooks buf_flush h a s io = ran 0 s io
call g hooks buf_fill h a s io = ran minus_one s io
call g hooks base_eof h a s io = ran (has_flag (base_of h s).flags perlio_f_eof) s io
call g hooks base_error h a s io = ran (has_flag (base_of h s).flags perlio_f_error) s io
call g hooks base_clearerr h a s io =
    ran 0 (set_flags h (and_not (base_of h s).flags (perlio_f_eof + perlio_f_error)) s) io
call g hooks base_setlinebuf h a s io = ran 0 s io
call g hooks buf_get_base h a s io = ran s.layer.buf s io
call g hooks buf_bufsiz h a s io = ran s.layer.bufsiz s io
call g hooks buf_get_ptr h a s io = ran s.layer.ptr s io
call g hooks buf_get_cnt h a s io = ran (pointer_diff s.layer.last s.layer.ptr) s io
call g hooks buf_set_ptrcnt h a s io = ran 0 (set_ptrcnt_stock a.first a.second s) io
call g hooks (custom n) h a s io = hooks n h a s io

-- A call through a slot of the handle's table: `PerlIO_read`, `PerlIO_fill`, `PerlIO_eof`,
-- `PerlIO_error`, `PerlIO_get_ptr`, `PerlIO_get_cnt` and `PerlIO_set_ptrcnt`, each with its slot.
pub dispatch : Guest → Hooks → SlotName → Handle → Args → Shadow → Io → Ran
unfolding call base_of
dispatch g hooks slot h a s io = elim ((base_of h s).tab.slot slot) [
  | none ↦ crashed
  | some m ↦ call g hooks m h a s io
]

-- `PerlIOValid(f)`
pub is_valid : Handle → Bool
is_valid null = false
is_valid dist = true
is_valid tail = true

-- `PerlIO_flush`
pub perlio_flush : Guest → Hooks → Handle → Args → Shadow → Io → Ran
unfolding dispatch is_valid
perlio_flush g hooks h a s io =
    if is_valid h then dispatch g hooks SlotName.flush h a s io else ran 0 s io

-- `PerlIO_get_base`, which reads the node as a `PerlIOBuf`: behind the tail node stands the
-- pointer to its owner.
pub perlio_get_base : Handle → Shadow → ℕ
perlio_get_base null s = s.layer.buf
perlio_get_base dist s = s.layer.buf
perlio_get_base tail s = s.address

-- `PerlIO_fast_gets`
pub perlio_fast_gets : Guest → Handle → Shadow → Io → Ran
unfolding base_of has_flag
perlio_fast_gets g null s io = ran 0 s io
perlio_fast_gets g dist s io = ran (has_flag s.layer.base.tab.kind perlio_k_fastgets) s io
perlio_fast_gets g tail s io =
    let (r, io') = next_op g perlio_next_fastgets 0 s io in ran (r % 2 ^ 32) s io'

-- The call came back, by a return or a croak.
abbrev pub Returns : Ran → Type 0
Returns (ran r s io) = Unit
Returns (raised s io) = Unit
Returns crashed = ⊥

-- The author's functions return or croak.
abbrev pub AllReturn : Hooks → Type 0
AllReturn hooks =
    (n : ℕ) (h : Handle) (a : Args) (s : Shadow) (io : Io) → Returns (hooks n h a s io)

pub call-Returns :
    (g : Guest) (hooks : Hooks) (m : Method) (h : Handle) (a : Args) (s : Shadow) (io : Io)
    → AllReturn hooks
    → Returns (call g hooks m h a s io)
unfolding call read_below fill_below eof_below error_below flush_below get_ptr_below get_cnt_below
    set_ptrcnt_below
call-Returns g hooks tail_read h a s io all = tt
call-Returns g hooks (custom n) h a s io all = all n h a s io
call-Returns g hooks _ h a s io all = tt
