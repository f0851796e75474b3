-- ===== src/PerlIo.antt =====
-- The layer-author view of PerlIO (xs/sdk/include/perliol.h): the tables of a layer, the host
-- shadow of a layer that the interpreter pushed, and the state that a hook works on. A pointer to
-- a function of a table is the function's name; a null pointer is `none`.
pub mod Tail
pub mod Methods
pub mod Shadows
pub mod Invoke
pub mod Examples
pub mod Define
use go_perl.Prelude.{ℕ, Option, none, some, List, ◌+◌, ◌-◌, ◌%◌, ◌^◌, bit_and}
use go_perl.Bridge.{World}

-- The pointers of `struct _PerlIO_funcs`.
pub data SlotName : Type 0 where
  pushed popped open_file binmode getarg fileno dup read unread write seek tell close flush fill eof
        error clearerr setlinebuf get_base get_bufsiz get_ptr get_cnt set_ptrcnt :
      SlotName

-- The functions of the header that a table can hold, and those of a layer's author.
pub data Method : Type 0 where
  tail_pushed tail_read tail_flush tail_fill tail_eof tail_error tail_get_ptr tail_get_cnt
        tail_set_ptrcnt :
      Method
  buf_pushed buf_popped buf_open base_binmode base_fileno buf_dup buf_read base_unread buf_write
        buf_seek buf_tell buf_close buf_flush buf_fill base_eof base_error base_clearerr
        base_setlinebuf buf_get_base buf_bufsiz buf_get_ptr buf_get_cnt buf_set_ptrcnt :
      Method
  custom : ℕ → Method

-- `PerlIO_funcs`
pub record Tab : Type 0 where
  pub name : List ℕ
  pub size : ℕ
  pub kind : ℕ
  pub slot : SlotName → Option Method

-- `struct _PerlIO`, without its links.
pub record Base : Type 0 where
  pub tab : Tab
  pub flags : ℕ
  pub err : ℕ

-- The struct of a layer, as a `PerlIOBuf` with the author's own fields behind it.
pub record Layer : Type 0 where
  pub base : Base
  pub buf : ℕ
  pub last : ℕ
  pub ptr : ℕ
  pub posn : ℕ
  pub bufsiz : ℕ
  pub fields : List ℕ

-- `goperl_iol_shadow_t` at its address, with the layer's struct and the tail node in it.
pub record Shadow : Type 0 where
  pub address : ℕ
  pub ltok : ℕ
  pub ff : ℕ
  pub layer : Layer
  pub tail : Base

-- A `PerlIO *`: null, the handle of the layer's struct or that of the tail.
pub data Handle : Type 0 where
  null dist tail : Handle

-- What the functions share: the fill window `goperl_iol_gbuf_v` and `goperl_iol_hbuf_v`, the
-- fields of the frame that a croak reads and writes, and `goperl_cur_frame_v`.
pub record Io : Type 0 where
  pub world : World
  pub gbuf : ℕ
  pub hbuf : ℕ
  pub jb : ℕ
  pub cur_frame : ℕ
  pub failed : ℕ
  pub err : List ℕ

-- The end of a call: a result, as 64 bits; a croak; or a call through a null pointer.
pub data Ran : Type 0 where
  ran : ℕ → Shadow → Io → Ran
  raised : Shadow → Io → Ran
  crashed : Ran

-- The numbers and the text that a function takes besides its handle.
pub record Args : Type 0 where
  pub first : ℕ
  pub second : ℕ
  pub mode : List ℕ
  pub tab : Option Tab

-- The functions of the layer's author.
abbrev pub Hooks : Type 0
Hooks = ℕ → Handle → Args → Shadow → Io → Ran

-- `PERLIO_F_EOF`, `PERLIO_F_ERROR`, `PERLIO_F_WRBUF` and `PERLIO_F_RDBUF`
abbrev pub perlio_f_eof : ℕ
perlio_f_eof = 0x100

abbrev pub perlio_f_error : ℕ
perlio_f_error = 0x800

abbrev pub perlio_f_wrbuf : ℕ
perlio_f_wrbuf = 0x20000

abbrev pub perlio_f_rdbuf : ℕ
perlio_f_rdbuf = 0x40000

-- `PERLIO_K_BUFFERED | PERLIO_K_FASTGETS`
abbrev pub tail_kind : ℕ
tail_kind = 0x2 + 0x8

-- `PERLIO_K_FASTGETS`
abbrev pub perlio_k_fastgets : ℕ
perlio_k_fastgets = 0x8

-- `x & ~mask`: the bits of `mask` that `x` has are taken off.
abbrev pub and_not : ℕ → ℕ → ℕ
and_not x mask = x - bit_and x mask

-- The difference of two pointers, modulo 2^64.
abbrev pub pointer_diff : ℕ → ℕ → ℕ
pointer_diff p q = (p + (2 ^ 64 - q % 2 ^ 64)) % 2 ^ 64

-- -1, as 64 bits.
abbrev pub minus_one : ℕ
minus_one = 2 ^ 64 - 1
