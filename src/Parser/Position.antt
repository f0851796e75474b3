-- ===== src/Parser/Position.antt =====
-- The position of the lexer survives the way to the module and back.
use go_perl.Prelude.{
  ℕ, ◌+◌, ◌%◌, ◌^◌, ◌<◌, ◌≤◌, ◌≡◌, ◌≢◌, refl, true, false, ◌||◌, [], ◌==◌, ltb, if◌then◌else◌,
  arith,
}
use go_perl.Bridge.{Guest, guest_mem, emit}
use go_perl.PerlIo.Tail.{Linear, window_arith}
use go_perl.Parser.{
  Compile, set_field, host_memory, parser_hptr, push_position, parser_push, lex_call, lex_read_to,
  lexed, outside_buffer, lex_read_to_id, parser_bufptr, parser_error_count, parser_in_my,
}

pub hptr_arith :
    (base pvg at : ℕ)
    → pvg < 2 ^ 32
    → at < 2 ^ 32
    → at ≢ 0
    → pvg ≤ at
    → base + 2 ^ 32 ≤ 2 ^ 64
    → parser_hptr pvg (base + pvg) at ≡ base + at
unfolding parser_hptr
hptr_arith base pvg at h k nz le l = ground arith

-- A position moved in the module, `base + at` for the guest address `at`, is told to the lexer as
-- `at`; the number of errors and `in_my` follow it. The interpreter's memory stands in one piece in
-- the host's, and the line has a string.
pub parser_push_lem :
    (g : Guest) (base at : ℕ) (c : Compile)
    → Linear g base
    → c.present ≡ true
    → c.pvg ≢ 0
    → c.pvg < 2 ^ 32
    → c.parser.bufptr ≡ base + at
    → base + at ≢ 0
    → at < 2 ^ 32
    → base + 2 ^ 32 ≤ 2 ^ 64
    → let seen = record (c.tree.world) { log = emit (guest_mem c.pvg) c.tree.world.log } in
      let told = set_field g parser_bufptr at seen in
      let counted = set_field g parser_error_count (c.parser.error_count % 2 ^ 32) told in
      (parser_push g c).tree.world ≡ set_field g parser_in_my c.parser.in_my counted
unfolding parser_push push_position host_memory
parser_push_lem g base at c linear here some_pv small is nz k l =
    let no_null : (base + at == 0 || (c.pvg == 0)) ≡ false = ground arith in
    rw (here, is, no_null, linear c.tree.world.log c.pvg, window_arith base c.pvg at small k l) refl

-- A read to the host pointer for the guest address `at` croaks exactly if `at` lies outside the
-- lexer's buffer, and nothing was called; else the lexer is told to read to `at`. The parser is
-- there, with a string and a position that is not null, and the interpreter's memory stands in one
-- piece in the host's.
pub lex_read_to_lem :
    (g : Guest) (base low high at : ℕ) (c : Compile)
    → Linear g base
    → c.present ≡ true
    → c.pvg < 2 ^ 32
    → c.parser.bufptr ≡ base + low
    → c.parser.bufend ≡ base + high
    → base + low ≢ 0
    → at < 2 ^ 32
    → base + 2 ^ 32 ≤ 2 ^ 64
    → let seen = record (c.tree.world) { log = emit (guest_mem c.pvg) c.tree.world.log } in
      let mapped : Compile = record c { tree = record (c.tree) { world = seen } } in
      lex_read_to g (base + at) c ≡ (
        if ltb at low || ltb high at
        then outside_buffer c
        else lexed (lex_call g lex_read_to_id at [] mapped).1)
unfolding lex_read_to host_memory
lex_read_to_lem g base low high at c linear here small start end nz k l =
    let no_null : (base + low == 0) ≡ false = ground arith in
    let same_low : ltb (base + at) (base + low) ≡ ltb at low = ground arith in
    let same_high : ltb (base + high) (base + at) ≡ ltb high at = ground arith in
    rw
      (
        here,
        start,
        end,
        no_null,
        same_low,
        same_high,
        linear c.tree.world.log c.pvg,
        window_arith base c.pvg at small k l,
      )
      refl
