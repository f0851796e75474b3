-- ===== src/Parser.antt =====
-- The parser as a keyword plugin sees it (xs/sdk/include/perl.h): the shadow of `PL_parser`, which
-- is pulled from the interpreter and pushed back around each operation of the lexer.
pub mod Position
pub mod Pulled
pub mod Block
pub mod Plugin
pub mod Examples
use go_perl.Prelude.{
  ℕ, zero, suc, ◌+◌, ◌-◌, ◌*◌, ◌%◌, ◌^◌, Bool, true, false, ◌&&◌, ◌||◌, not, List, [], ◌==◌, ltb,
  if◌then◌else◌,
}
use go_perl.Bridge.{Guest, World, guest_mem, emit}
use go_perl.Bridge.Op.{parser_get, parser_set, lex, parse}
use go_perl.Flush.{do_op}
use go_perl.PerlIo.{pointer_diff}
use go_perl.Optree.{Optree, flushed, croaked, optree_flush}
use go_perl.Optree.Build.{GuestText, op_shadow_full}

-- `struct yy_parser`: the token of the line's SV, host pointers into its string, and numbers.
pub record YyParser : Type 0 where
  pub linestr : ℕ
  pub bufptr : ℕ
  pub oldbufptr : ℕ
  pub bufend : ℕ
  pub linestart : ℕ
  pub error_count : ℕ
  pub in_my : ℕ
  pub lex_flags : ℕ
  pub preambling : ℕ

-- The op tree, the shadow of the parser, whether `PL_parser` points to it, and the guest address
-- of the line's string.
pub record Compile : Type 0 where
  pub tree : Optree
  pub parser : YyParser
  pub present : Bool
  pub pvg : ℕ

-- The ids of the parser's fields.
abbrev pub parser_present : ℕ
parser_present = 0

abbrev pub parser_linestr : ℕ
parser_linestr = 1

abbrev pub parser_bufptr : ℕ
parser_bufptr = 2

abbrev pub parser_bufend : ℕ
parser_bufend = 3

abbrev pub parser_oldbufptr : ℕ
parser_oldbufptr = 4

abbrev pub parser_linestart : ℕ
parser_linestart = 5

abbrev pub parser_error_count : ℕ
parser_error_count = 6

abbrev pub parser_in_my : ℕ
parser_in_my = 7

abbrev pub parser_lex_flags : ℕ
parser_lex_flags = 8

abbrev pub parser_preambling : ℕ
parser_preambling = 9

abbrev pub parser_pv : ℕ
parser_pv = 10

pub get_field : Guest → ℕ → World → ℕ × World
get_field g field w = do_op g parser_get field 0 [] w

pub set_field : Guest → ℕ → ℕ → World → World
set_field g field value w = (do_op g parser_set field value [] w).1

-- `goperl_api_v->guest_mem`
pub host_memory : Guest → ℕ → World → ℕ × World
host_memory g gp w =
    let call = guest_mem gp in (g.answer w.log call, record w { log = emit call w.log })

-- `goperl_parser_hptr`: the host pointer for a guest address `at` in the string at `pvg`.
pub parser_hptr : ℕ → ℕ → ℕ → ℕ
parser_hptr pvg hbase at = if at == 0 then 0 else (hbase + (at + (2 ^ 32 - pvg)) % 2 ^ 32) % 2 ^ 64

-- `goperl_parser_pull` behind its test.
pub pull_fields : Guest → Compile → World → Compile
unfolding get_field host_memory parser_hptr
pull_fields g c w =
    let (pv, w₁) = get_field g parser_pv w in
    let pvg = pv % 2 ^ 32 in
    let mapped = host_memory g pvg w₁ in
    let (hbase, w₂) = if pvg == 0 then (0, w₁) else mapped in
    let (linestr, w₃) = get_field g parser_linestr w₂ in
    let (bufptr, w₄) = get_field g parser_bufptr w₃ in
    let (bufend, w₅) = get_field g parser_bufend w₄ in
    let (oldbufptr, w₆) = get_field g parser_oldbufptr w₅ in
    let (linestart, w₇) = get_field g parser_linestart w₆ in
    let (error_count, w₈) = get_field g parser_error_count w₇ in
    let (in_my, w₉) = get_field g parser_in_my w₈ in
    let (lex_flags, w₁₀) = get_field g parser_lex_flags w₉ in
    let (preambling, w₁₁) = get_field g parser_preambling w₁₀ in
    record {
      tree = record (c.tree) { world = w₁₁ };
      parser = record {
        linestr = linestr;
        bufptr = parser_hptr pvg hbase (bufptr % 2 ^ 32);
        oldbufptr = parser_hptr pvg hbase (oldbufptr % 2 ^ 32);
        bufend = parser_hptr pvg hbase (bufend % 2 ^ 32);
        linestart = parser_hptr pvg hbase (linestart % 2 ^ 32);
        error_count = error_count % 2 ^ 32;
        in_my = in_my % 2 ^ 16;
        lex_flags = lex_flags % 2 ^ 32;
        preambling = preambling % 2 ^ 32;
      };
      present = true;
      pvg = pvg;
    }

-- `goperl_parser_pull`
pub parser_pull : Guest → Compile → Compile
unfolding pull_fields
parser_pull g c =
    let (there, w) = get_field g parser_present c.tree.world in
    let pulled = pull_fields g c w in
    if there == 0
    then record c { tree = record (c.tree) { world = w }; present = false }
    else pulled

-- The position that `goperl_parser_push` sends, if there is one.
pub push_position : Guest → Compile → World → World
unfolding host_memory set_field
push_position g c w =
    let (hbase, w') = host_memory g c.pvg w in
    let at = (c.pvg + pointer_diff c.parser.bufptr hbase % 2 ^ 32) % 2 ^ 32 in
    if c.parser.bufptr == 0 || (c.pvg == 0) then w else set_field g parser_bufptr at w'

-- `goperl_parser_push`
pub parser_push : Guest → Compile → Compile
unfolding push_position set_field
parser_push g c =
    let w = push_position g c c.tree.world in
    let w' = set_field g parser_error_count (c.parser.error_count % 2 ^ 32) w in
    let pushed = set_field g parser_in_my c.parser.in_my w' in
    if c.present then record c { tree = record (c.tree) { world = pushed } } else c

-- `goperl_lex`: the result, as 64 bits.
pub lex_call : Guest → ℕ → ℕ → List ℕ → Compile → ℕ × Compile
unfolding parser_push parser_pull
lex_call g sel b s c =
    let c₁ = parser_push g c in
    let (r, w) = do_op g lex (sel % 2 ^ 32) b s c₁.tree.world in
    (r, parser_pull g (record c₁ { tree = record (c₁.tree) { world = w } }))

-- `GOPERL_LEX_READ_TO`
abbrev pub lex_read_to_id : ℕ
lex_read_to_id = 3

-- The end of an operation, or the croak that left it.
pub data Lexed : Type 0 where
  lexed : Compile → Lexed
  outside_buffer : Compile → Lexed

-- `goperl_lex_read_to`
pub lex_read_to : Guest → ℕ → Compile → Lexed
unfolding lex_call host_memory
lex_read_to g ptr c =
    let p = c.parser in
    let (hbase, w) = host_memory g c.pvg c.tree.world in
    let at = (c.pvg + pointer_diff ptr hbase % 2 ^ 32) % 2 ^ 32 in
    let (r, c') =
      lex_call g lex_read_to_id at [] (record c { tree = record (c.tree) { world = w } }) in
    if not c.present || (p.bufptr == 0) || ltb ptr p.bufptr || ltb p.bufend ptr
    then outside_buffer c
    else lexed c'

-- What a parse gives: the op, 0 for none, or the croak of the write-back.
pub data Parsed : Type 0 where
  parsed : ℕ → Compile → Parsed
  left : Compile → Parsed

-- `goperl_parse` behind the write-back.
pub parse_flushed : Guest → GuestText → ℕ → ℕ → Compile → ℕ × Compile
unfolding parser_pull
parse_flushed g text sel flags c =
    let (tok, w) = do_op g parse (sel % 2 ^ 32) flags [] c.tree.world in
    let c₁ = parser_pull g (record c { tree = record (c.tree) { world = w } }) in
    let (a, t) = op_shadow_full g text tok c₁.tree in
    if tok == 0 then (0, c₁) else (a, record c₁ { tree = t })

-- `goperl_parse`
pub parse_call : Guest → Bool → GuestText → ℕ → ℕ → Compile → Parsed
unfolding parser_push parse_flushed
parse_call g perop text sel flags c =
    let c₁ = parser_push g c in
    elim (optree_flush g perop c₁.tree) [
      | croaked t ↦ left (record c₁ { tree = t })
      | flushed t ↦
          (let (a, c₂) = parse_flushed g text sel flags (record c₁ { tree = t }) in parsed a c₂)
    ]
