-- ===== src/Format.antt =====
-- The formatter `goperl_vfmt` of xs/sdk/include/perl.h, and `goperl_form`, `goperl_croakf` and
-- `goperl_warnf` on top of it. A C string is the list of its bytes before the NUL. `snprintf` and
-- the text of an SV are parameters; reading past the arguments, or one of another type, which is
-- undefined in C, gives 0 or a null pointer.
pub mod Progress
pub mod Render
pub mod Buffer
pub mod Literal
pub mod Examples
use go_perl.Prelude.{
  ℕ, zero, suc, ◌+◌, ◌-◌, ◌%◌, ◌^◌, Bool, true, false, ◌&&◌, ◌||◌, not, Option, none, some, List,
  [], ◌∷◌, ◌++◌, ltb, leb, ◌==◌, if◌then◌else◌, get_or, set, length, take, drop,
}
use go_perl.Bridge.{Call, sv_pv, Log, Guest, World, emit}
use go_perl.Bridge.Op.{warn}
use go_perl.Flush.{flush, do_op}
use go_perl.Text.{strlen}

-- An argument of the variable list: a number, floating-point number or pointer as its bits, or a
-- string, `none` for a null pointer.
pub data Vararg : Type 0 where
  scalar : ℕ → Vararg
  string : Option (List ℕ) → Vararg

-- The types at which a number is read.
pub data CType : Type 0 where
  int long long_long size_type unsigned_int unsigned_long unsigned_long_long double pointer : CType

pub data LengthMod : Type 0 where
  no_mod mod_l mod_ll mod_z mod_h : LengthMod

-- The code outside: what `snprintf` prints at `"%d"`, at another conversion of a number, and at
-- one of a string, before it truncates; and what the interpreter answers to `sv_pv`.
pub record Printf : Type 0 where
  pub decimal : ℕ → List ℕ
  pub number : List ℕ → CType → ℕ → List ℕ
  pub string : List ℕ → List ℕ → List ℕ
  pub sv_text : Log → ℕ → Option (List ℕ)

-- Where the formatter stands: `fmt`, `ap`, and the state that the reading of an SV flushes.
pub record Position : Type 0 where
  pub fmt : List ℕ
  pub va : List Vararg
  pub world : World

abbrev pub va_scalar : List Vararg → ℕ × List Vararg
va_scalar [] = (0, [])
va_scalar (scalar n ∷ va) = (n, va)
va_scalar (string s ∷ va) = (0, va)

abbrev pub va_string : List Vararg → Option (List ℕ) × List Vararg
va_string [] = (none, [])
va_string (scalar n ∷ va) = (none, va)
va_string (string s ∷ va) = (s, va)

-- What one round of the loop appends and where it ends, or that the loop is left.
pub data Round : Type 0 where
  text : List ℕ → Position → Round
  stopped : Round

-- The markers `SVf` and `UTF8f`.
abbrev pub svf : List ℕ
svf = 2 ∷ b'G' ∷ b'S' ∷ b'V' ∷ 2 ∷ []

abbrev pub utf8f : List ℕ
utf8f = 2 ∷ b'G' ∷ b'U' ∷ b'8' ∷ 2 ∷ []

abbrev pub null_text : List ℕ
null_text = b'(' ∷ b'n' ∷ b'u' ∷ b'l' ∷ b'l' ∷ b')' ∷ []

-- `strncmp(s, prefix, n) == 0` for a prefix of `n` bytes, and `*s == c` for one of one byte.
abbrev pub starts : List ℕ → List ℕ → Bool
starts [] s = true
starts (c ∷ prefix) [] = false
starts (c ∷ prefix) (b ∷ s) = (b == c) && starts prefix s

-- The C string that a buffer holds.
abbrev pub c_string : List ℕ → List ℕ
c_string s = take (strlen s) s

-- `s ? s : "(null)"`
abbrev pub or_null : Option (List ℕ) → List ℕ
or_null none = null_text
or_null (some s) = s

abbrev pub bytes_of : Option (List ℕ) → List ℕ
bytes_of none = []
bytes_of (some s) = s

-- `%` followed by SVf: the flush and the call of `goperl_sv_pv_`, and the bytes appended.
pub sv_directive : Printf → Position → Round
sv_directive e p =
    let (sv, va) = va_scalar p.va in
    let flushed = flush p.world in
    let call = sv_pv sv in
    let rest = record p { fmt = drop 5 p.fmt; va = va } in
    if sv == 0
    then text null_text rest
    else text (bytes_of (e.sv_text flushed.log sv))
        (record rest { world = record flushed { log = emit call flushed.log } })

-- `%` followed by UTF8f: the flag is not used, a null string appends nothing.
pub utf8_directive : Position → Round
utf8_directive p =
    let (flag, va) = va_scalar p.va in
    let (ulen, va') = va_scalar va in
    let (up, va'') = va_string va' in
    text (take ulen (bytes_of up)) (record p { fmt = drop 5 p.fmt; va = va'' })

-- A loop `while (test(*fmt) && sn < limit) spec[sn++] = *fmt++`: `spec` and `fmt` behind it.
pub scan : (ℕ → Bool) → ℕ → List ℕ → List ℕ → List ℕ × List ℕ
scan test limit spec [] = (spec, [])
scan test limit spec (c ∷ s) =
    let rest = scan test limit (spec ++ (c ∷ [])) s in
    if test c && ltb (length spec) limit then rest else (spec, c ∷ s)

abbrev pub is_flag : ℕ → Bool
is_flag c = (c == b'-') || (c == b'+') || (c == b' ') || (c == b'#') || (c == b'0')

abbrev pub is_decimal : ℕ → Bool
is_decimal c = leb b'0' c && leb c b'9'

-- A conversion while it is read: `spec`, `fmt` and `ap`.
pub record Spec : Type 0 where
  pub spec : List ℕ
  pub fmt : List ℕ
  pub va : List Vararg

-- A `*`, which takes an argument, or digits while `sn < limit`.
pub star_or_digits : Printf → ℕ → Spec → Spec
unfolding scan
star_or_digits e limit s =
    let (n, va) = va_scalar s.va in
    let (spec, fmt) = scan is_decimal limit s.spec s.fmt in
    if starts (b'*' ∷ []) s.fmt
    then record { spec = s.spec ++ e.decimal (n % 2 ^ 32); fmt = drop 1 s.fmt; va = va }
    else record s { spec = spec; fmt = fmt }

pub precision : Printf → Spec → Spec
unfolding star_or_digits
precision e s =
    if starts (b'.' ∷ []) s.fmt
    then star_or_digits e 24 (record s { spec = s.spec ++ (b'.' ∷ []); fmt = drop 1 s.fmt })
    else s

-- `spec[sn++] = *fmt++`, `n` times.
pub copy : ℕ → Spec → Spec
copy n s = record s { spec = s.spec ++ take n s.fmt; fmt = drop n s.fmt }

pub length_modifier : Spec → LengthMod × Spec
unfolding copy
length_modifier s =
    if starts (b'l' ∷ b'l' ∷ []) s.fmt
    then (mod_ll, copy 2 s)
    else if starts (b'l' ∷ []) s.fmt
    then (mod_l, copy 1 s)
    else if starts (b'z' ∷ []) s.fmt
    then (mod_z, copy 1 s)
    else if starts (b'h' ∷ b'h' ∷ []) s.fmt
    then (mod_h, copy 2 s)
    else if starts (b'h' ∷ []) s.fmt
    then (mod_h, copy 1 s)
    else (no_mod, s)

-- The flags, the width, the precision and the length modifier behind a `%`.
pub parse_spec : Printf → Position → LengthMod × Spec
unfolding scan star_or_digits precision length_modifier
parse_spec e p =
    let (spec, fmt) = scan is_flag 8 (b'%' ∷ []) p.fmt in
    length_modifier
      (precision e (star_or_digits e 14 (record { spec = spec; fmt = fmt; va = p.va })))

pub signed_type : LengthMod → CType
signed_type mod_ll = long_long
signed_type mod_l = long
signed_type mod_z = size_type
signed_type mod_h = int
signed_type no_mod = int

pub unsigned_type : LengthMod → CType
unsigned_type mod_ll = unsigned_long_long
unsigned_type mod_l = unsigned_long
unsigned_type mod_z = size_type
unsigned_type mod_h = unsigned_int
unsigned_type no_mod = unsigned_int

-- The type at which the conversion reads a number, if it reads one.
pub number_type : ℕ → LengthMod → Option CType
unfolding signed_type unsigned_type
number_type conv lmod =
    if (conv == b'd') || (conv == b'i')
    then some (signed_type lmod)
    else if (conv == b'u') || (conv == b'o') || (conv == b'x') || (conv == b'X')
    then some (unsigned_type lmod)
    else if conv == b'c'
    then some int
    else if conv == b'p'
    then some pointer
    else if (conv == b'e')
        || (conv == b'E')
        || (conv == b'f')
        || (conv == b'F')
        || (conv == b'g')
        || (conv == b'G')
    then some double
    else none

-- The `switch` on the conversion: what is printed, and the arguments left.
pub print : Printf → ℕ → LengthMod → List ℕ → List Vararg → List ℕ × List Vararg
unfolding number_type
print e conv lmod spec va =
    let (n, va') = va_scalar va in
    let (s, va'') = va_string va in
    elim (number_type conv lmod) [
      | some type ↦ (e.number spec type n, va')
      | none ↦
          if conv == b's'
          then (e.string spec (or_null s), va'')
          else (b'<' ∷ b'%' ∷ conv ∷ b'?' ∷ b'>' ∷ [], va)
    ]

-- The bytes of `chunk` before its NUL, where `snprintf` was given 512 bytes.
pub chunk : List ℕ → List ℕ
chunk t = c_string (take 511 t)

-- The conversion character and the `switch` on it, behind `spec`; the loop is left at the end of
-- the format.
pub finish : Printf → Position → LengthMod → List ℕ → List Vararg → List ℕ → Round
unfolding print chunk
finish e p lmod spec va [] = stopped
finish e p lmod spec va (conv ∷ rest) =
    let (printed, va') = print e conv lmod (spec ++ (conv ∷ [])) va in
    text (chunk printed) (record p { fmt = rest; va = va' })

-- A standard conversion.
pub conversion : Printf → Position → Round
unfolding parse_spec finish
conversion e p = let (lmod, s) = parse_spec e p in finish e p lmod s.spec s.va s.fmt

-- What follows a `%`.
pub directive : Printf → Position → Round
unfolding sv_directive utf8_directive conversion
directive e p =
    if starts (b'%' ∷ []) p.fmt
    then text (b'%' ∷ []) (record p { fmt = drop 1 p.fmt })
    else if starts svf p.fmt
    then sv_directive e p
    else if starts utf8f p.fmt
    then utf8_directive p
    else conversion e p

-- One round of the loop, at the format that `p` has.
pub round_at : Printf → Position → List ℕ → Round
unfolding directive
round_at e p [] = stopped
round_at e p (c ∷ s) =
    let rest = record p { fmt = s } in if c == b'%' then directive e rest else text (c ∷ []) rest

pub round : Printf → Position → Round
unfolding round_at
round e p = round_at e p p.fmt

-- `dst` and the counter `o`.
pub record Out : Type 0 where
  pub dst : List ℕ
  pub o : ℕ

-- `GOPERL_PUTC`
pub putc : ℕ → ℕ → Out → Out
putc dstsize c out = record {
  dst = if ltb (out.o + 1) dstsize then set out.dst out.o c else out.dst;
  o = out.o + 1;
}

pub puts : ℕ → List ℕ → Out → Out
unfolding putc
puts dstsize [] out = out
puts dstsize (c ∷ t) out = puts dstsize t (putc dstsize c out)

-- The loop, with `fuel` rounds at most: the buffer and the state, or `none` when they are spent.
pub vfmt_loop : Printf → ℕ → ℕ → Position → Out → Option (Out × World)
unfolding round puts
vfmt_loop e dstsize zero p out = none
vfmt_loop e dstsize (suc fuel) p out = elim (round e p) [
  | stopped ↦ some (out, p.world)
  | text t p' ↦ vfmt_loop e dstsize fuel p' (puts dstsize t out)
]

-- The NUL behind the text.
pub terminate : ℕ → Out → List ℕ
terminate dstsize out = set out.dst (if ltb out.o dstsize then out.o else dstsize - 1) 0

-- `goperl_vfmt`
pub vfmt : Printf → List ℕ → ℕ → Position → Option (List ℕ × World)
unfolding vfmt_loop terminate
vfmt e dst dstsize p =
    let looped = vfmt_loop e dstsize (suc (length p.fmt)) p (record { dst = dst; o = 0 }) in
    if dstsize == 0
    then some (dst, p.world)
    else elim looped [ none ↦ none | some (out, w) ↦ some (terminate dstsize out, w) ]

-- The rotating buffers of `goperl_form` and their counter, below 2^31.
pub record FormBufs : Type 0 where
  pub bufs : List (List ℕ)
  pub ix : ℕ

-- `goperl_form`: the buffer used, by its index, and its contents. The other two spellings differ
-- in the frame that they take.
pub form : Printf → FormBufs → Position → Option (ℕ × FormBufs × World)
unfolding vfmt
form e f p =
    let at = f.ix % 8 in
    elim (vfmt e (get_or f.bufs at []) 1024 p) [
      | none ↦ none
      | some (buf, w) ↦ some (at, record { bufs = set f.bufs at buf; ix = f.ix + 1 }, w)
    ]

-- The fields of the frame that a croak writes and reads.
pub record CroakFrame : Type 0 where
  pub jb : ℕ
  pub failed : ℕ
  pub err : List ℕ

-- How a croak leaves: to the `setjmp` of `jb`, or by `abort` where none is armed.
pub data Raised : Type 0 where
  jumped : CroakFrame → World → Raised
  aborted : CroakFrame → World → Raised

pub raise : CroakFrame → World → Raised
raise f w =
    let failed = record f { failed = 1 } in if f.jb == 0 then aborted failed w else jumped failed w

-- `goperl_croakf`
pub croakf : Printf → CroakFrame → Position → Option Raised
unfolding vfmt raise
croakf e f p = elim (vfmt e f.err 512 p) [
  | none ↦ none
  | some (err, w) ↦ some (raise (record f { err = err }) w)
]

-- `Perl_croak` and `Perl_croak_nocontext`
pub perl_croak : Printf → CroakFrame → Position → Option Raised
unfolding croakf
perl_croak e f p = croakf e f p

-- `goperl_warnf`, which `Perl_warn` and `Perl_warner` repeat; `buf` is what its local array holds at the start.
pub warnf : Printf → Guest → List ℕ → Position → Option (ℕ × World)
unfolding vfmt
warnf e g buf p = elim (vfmt e buf 1024 p) [
  | none ↦ none
  | some (said, w) ↦ some (do_op g warn 0 0 (c_string said) w)
]
