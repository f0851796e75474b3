-- ===== src/Parser/Pulled.antt =====
-- What a module finds in the parser's shadow, and what the lexer is told when it has moved on.
use go_perl.Prelude.{
  ℕ, ◌+◌, ◌%◌, ◌^◌, ◌<◌, ◌≤◌, ◌≡◌, ◌≢◌, refl, sym, ap, ◌∙◌, true, false, [], ◌==◌, arith,
}
use go_perl.Bridge.{Guest, Log, World, xs_op, guest_mem, emit}
use go_perl.Bridge.Op.{parser_get}
use go_perl.Flush.{do_op}
use go_perl.PerlIo.Tail.{Linear}
use go_perl.Parser.{
  Compile, get_field, set_field, host_memory, parser_hptr, pull_fields, parser_pull, parser_push,
  parser_present, parser_pv, parser_bufptr, parser_error_count, parser_in_my,
}
use go_perl.Parser.Position.{hptr_arith, parser_push_lem}

-- The interpreter's parser has the fields `fields`, whatever is called in between.
abbrev pub Steady : Guest → (ℕ → ℕ) → Type 0
Steady g fields =
    (log : Log) (field : ℕ) → g.answer log (xs_op parser_get field 0 []) ≡ fields field

get_field-Steady :
    (g : Guest) (fields : ℕ → ℕ) (field : ℕ) (w : World)
    → Steady g fields
    → (get_field g field w).0 ≡ fields field
unfolding get_field do_op
get_field-Steady g fields field w steady = steady _ field

do_op-Steady :
    (g : Guest) (fields : ℕ → ℕ) (steady : Steady g fields) (field : ℕ) (w : World)
    → (do_op g parser_get field 0 [] w).0 ≡ fields field
unfolding do_op
do_op-Steady g fields steady field w = steady _ field

nonzero_test : (n : ℕ) → n ≢ 0 → (n == 0) ≡ false
nonzero_test n h = ground arith

module _ (g : Guest) (fields : ℕ → ℕ) (base : ℕ) (c : Compile) (steady : Steady g fields)
    (linear : Linear g base) (there : fields parser_present ≢ 0) (some_pv : fields parser_pv ≢ 0)
    (small : fields parser_pv < 2 ^ 32) where
  parser_pull-there : parser_pull g c ≡ pull_fields g c (get_field g parser_present c.tree.world).1
  unfolding parser_pull
  parser_pull-there =
      let asked = get_field-Steady g fields parser_present c.tree.world steady in
      rw (asked, nonzero_test (fields parser_present) there) refl

  pulled_present : (w : World) → (pull_fields g c w).present ≡ true
  unfolding pull_fields
  pulled_present w = refl

  pulled_pvg : (w : World) → (pull_fields g c w).pvg ≡ fields parser_pv
  unfolding pull_fields
  pulled_pvg w = rw (get_field-Steady g fields parser_pv w steady) (omega arith)

  pulled_bufptr :
      (w : World)
      → (pull_fields g c w).parser.bufptr
        ≡ parser_hptr (fields parser_pv) (base + fields parser_pv) (fields parser_bufptr % 2 ^ 32)
  unfolding pull_fields host_memory parser_hptr
  pulled_bufptr w =
      let low : fields parser_pv % 2 ^ 32 ≡ fields parser_pv = omega arith in
      rw
        (get_field-Steady g fields parser_pv w steady, low, nonzero_test (fields parser_pv) some_pv)
        (rw (linear _ (fields parser_pv), do_op-Steady g fields steady parser_bufptr) refl)

  pulled_error_count :
      (w : World) → (pull_fields g c w).parser.error_count ≡ fields parser_error_count % 2 ^ 32
  unfolding pull_fields
  pulled_error_count w = rw (do_op-Steady g fields steady parser_error_count) refl

  pulled_in_my : (w : World) → (pull_fields g c w).parser.in_my ≡ fields parser_in_my % 2 ^ 16
  unfolding pull_fields
  pulled_in_my w = rw (do_op-Steady g fields steady parser_in_my) refl

-- The position that the module finds.
pub parser_pull-bufptr :
    (g : Guest) (fields : ℕ → ℕ) (base : ℕ) (c : Compile)
    → Steady g fields
    → Linear g base
    → fields parser_present ≢ 0
    → fields parser_pv ≢ 0
    → fields parser_pv ≤ fields parser_bufptr
    → fields parser_bufptr < 2 ^ 32
    → base + 2 ^ 32 ≤ 2 ^ 64
    → (parser_pull g c).parser.bufptr ≡ base + fields parser_bufptr
parser_pull-bufptr g fields base c steady linear there some_pv le small room =
    let pv : fields parser_pv < 2 ^ 32 = omega arith in
    let w = (get_field g parser_present c.tree.world).1 in
    let low : fields parser_bufptr % 2 ^ 32 ≡ fields parser_bufptr = omega arith in
    ap (λ (p : Compile). p.parser.bufptr)
      (parser_pull-there g fields base c steady linear there some_pv pv)
    ∙ pulled_bufptr g fields base c steady linear there some_pv pv w
    ∙ ap (λ x. parser_hptr (fields parser_pv) (base + fields parser_pv) x) low
    ∙ hptr_arith base (fields parser_pv) (fields parser_bufptr) pv small (omega arith) le room

-- The module's `PL_parser->bufptr += n`.
abbrev pub advance : ℕ → Compile → Compile
advance n c = record c { parser = record (c.parser) { bufptr = c.parser.bufptr + n } }

-- Where the interpreter's parser is there and keeps its fields, its memory stands in one piece in
-- the host's, and its position `at` is not null and not before the line's string: a module finds
-- the position at `base + at`. When it has moved it on by `n` bytes, the lexer is told `at + n`,
-- and the number of errors and `in_my` as they were.
pub parser_push-parser_pull :
    (g : Guest) (fields : ℕ → ℕ) (base n : ℕ) (c : Compile)
    → Steady g fields
    → Linear g base
    → fields parser_present ≢ 0
    → fields parser_pv ≢ 0
    → fields parser_pv ≤ fields parser_bufptr
    → fields parser_bufptr + n < 2 ^ 32
    → fields parser_error_count < 2 ^ 32
    → fields parser_in_my < 2 ^ 16
    → base + 2 ^ 32 ≤ 2 ^ 64
    → let p = parser_pull g c in
      let w = p.tree.world in
      let at = fields parser_bufptr in
      let seen = record w { log = emit (guest_mem (fields parser_pv)) w.log } in
      let told = set_field g parser_bufptr (at + n) seen in
      let counted = set_field g parser_error_count (fields parser_error_count) told in
      (p.parser.bufptr ≡ base + at)
      × ((parser_push g (advance n p)).tree.world
          ≡ set_field g parser_in_my (fields parser_in_my) counted)
parser_push-parser_pull g fields base n c steady linear there some_pv le small few narrow room =
    let pv : fields parser_pv < 2 ^ 32 = omega arith in
    let w = (get_field g parser_present c.tree.world).1 in
    let p = pull_fields g c w in
    let pulled = parser_pull-there g fields base c steady linear there some_pv pv in
    let at =
      ap (λ (q : Compile). q.parser.bufptr) (sym pulled)
      ∙ parser_pull-bufptr g fields base c steady linear there some_pv le (omega arith) room in
    let string = pulled_pvg g fields base c steady linear there some_pv pv w in
    let errors : p.parser.error_count % 2 ^ 32 ≡ fields parser_error_count =
      ap (λ x. x % 2 ^ 32) (pulled_error_count g fields base c steady linear there some_pv pv w)
      ∙ omega arith in
    let mine : p.parser.in_my ≡ fields parser_in_my =
      pulled_in_my g fields base c steady linear there some_pv pv w ∙ omega arith in
    let moved : p.parser.bufptr + n ≡ base + (fields parser_bufptr + n) = omega (arith, at) in
    rw pulled (
      at,
      parser_push_lem g base (fields parser_bufptr + n) (advance n p) linear
            (pulled_present g fields base c steady linear there some_pv pv w)
            (λ q. some_pv (sym string ∙ q)) (omega (arith, string)) moved (omega arith) small room
          ∙ rw (string, errors, mine) refl,
    )
