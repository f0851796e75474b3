-- ===== src/Parser/Block.antt =====
-- Blocks and pads in the parser's surface (xs/sdk/include/perl.h): `goperl_block_start`,
-- `goperl_block_end` and the pad operations.
use go_perl.Prelude.{
  ℕ, ◌+◌, ◌*◌, ◌%◌, ◌^◌, ◌<◌, ◌≤◌, ◌≡◌, ◌≢◌, Bool, ◌||◌, not, Option, none, some, List, [], ◌==◌,
  if◌then◌else◌,
}
use go_perl.Bridge.{Guest, World}
use go_perl.Bridge.Op.{block, pad}
use go_perl.Flush.{do_op}
use go_perl.Optree.{flushed, croaked, optree_flush}
use go_perl.Optree.Build.{GuestText, op_shadow_full, op_refresh, token_bytes_64}
use go_perl.PerlIo.Tail.{Linear}
use go_perl.Parser.{
  Compile, Parsed, parsed, left, parser_push, parser_pull, parser_present, parser_pv, parser_bufptr,
}
use go_perl.Parser.Pulled.{Steady, parser_pull-bufptr}

-- `goperl_block_start`: the floor, as the pattern of an I32.
pub block_start : Guest → ℕ → Compile → ℕ × Compile
block_start g full c =
    let c₁ = parser_push g c in
    let (floor, w) = do_op g block 0 (full % 2 ^ 32) [] c₁.tree.world in
    (floor % 2 ^ 32, parser_pull g (record c₁ { tree = record (c₁.tree) { world = w } }))

-- `goperl_block_end` behind the write-back of the tree; `seq` is 0 for no op.
pub block_end_flushed : Guest → GuestText → ℕ → ℕ → ℕ → Compile → ℕ × Compile
block_end_flushed g text floor seq gop c =
    let (tok, w) = do_op g block 1 (floor % 2 ^ 32) (token_bytes_64 gop) c.tree.world in
    let c₁ = parser_pull g (record c { tree = record (c.tree) { world = w } }) in
    let t = op_refresh g seq c₁.tree in
    let (a, t') = op_shadow_full g text tok t in
    if tok == 0 then (0, record c₁ { tree = t }) else (a, record c₁ { tree = t' })

-- `goperl_block_end`
pub block_end : Guest → Bool → GuestText → ℕ → ℕ → Compile → Parsed
unfolding block_end_flushed
block_end g perop text floor seq c =
    let gop = if seq == 0 then 0 else (c.tree.ops seq).gop in
    let c₁ = parser_push g c in
    elim (optree_flush g perop c₁.tree) [
      | croaked t ↦ left (record c₁ { tree = t })
      | flushed t ↦
          (let (a, c₂) = block_end_flushed g text floor seq gop (record c₁ { tree = t }) in
            parsed a c₂)
    ]

-- The ids of the pad operations.
abbrev pub pad_alloc_id : ℕ
pad_alloc_id = 0

abbrev pub pad_add_name_id : ℕ
pad_add_name_id = 1

abbrev pub pad_findmy_id : ℕ
pad_findmy_id = 2

abbrev pub pad_intro_my_id : ℕ
pad_intro_my_id = 3

-- `goperl_pad_alloc`
pub pad_alloc : Guest → ℕ → ℕ → World → ℕ × World
pad_alloc g optype tmptype w =
    do_op g pad pad_alloc_id (optype % 2 ^ 32 * 2 ^ 32 + tmptype % 2 ^ 32) [] w

-- `goperl_pad_add_name_pvn` for a name of `len` bytes; `none` for the croak of a typed name.
pub pad_add_name_pvn : Guest → List ℕ → ℕ → ℕ → ℕ → ℕ → World → Option (ℕ × World)
pad_add_name_pvn g name len flags typestash ourstash w =
    if not (typestash == 0) || not (ourstash == 0)
    then none
    else some (do_op g pad pad_add_name_id (flags % 2 ^ 32 * 2 ^ 32 + len % 2 ^ 32) name w)

-- `goperl_pad_findmy_pvn`
pub pad_findmy_pvn : Guest → List ℕ → ℕ → ℕ → World → ℕ × World
pad_findmy_pvn g name len flags w =
    do_op g pad pad_findmy_id (flags % 2 ^ 32 * 2 ^ 32 + len % 2 ^ 32) name w

-- `goperl_intro_my`
pub intro_my : Guest → World → ℕ × World
intro_my g w = let (r, w') = do_op g pad pad_intro_my_id 0 [] w in (r % 2 ^ 32, w')

-- Where the interpreter's parser keeps its fields and its memory stands in one piece in the host's,
-- a module that has started a block finds the position of the lexer at its place in the host.
pub block_start-bufptr :
    (g : Guest) (fields : ℕ → ℕ) (base full : ℕ) (c : Compile)
    → Steady g fields
    → Linear g base
    → fields parser_present ≢ 0
    → fields parser_pv ≢ 0
    → fields parser_pv ≤ fields parser_bufptr
    → fields parser_bufptr < 2 ^ 32
    → base + 2 ^ 32 ≤ 2 ^ 64
    → (block_start g full c).1.parser.bufptr ≡ base + fields parser_bufptr
unfolding block_start
block_start-bufptr g fields base full c steady linear there some_pv le small room =
    let pushed = parser_push g c in
    let asked = do_op g block 0 (full % 2 ^ 32) [] pushed.tree.world in
    parser_pull-bufptr g fields base
      (record pushed { tree = record (pushed.tree) { world = asked.1 } }) steady linear there
      some_pv le small room
