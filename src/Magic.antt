-- ===== src/Magic.antt =====
-- The magic of an SV (xs/sdk/include/perl.h): the chain of the loader behind `SvMAGIC`, which a
-- module may read and assign, and the operations that attach, find and remove magic.
pub mod WriteBack
pub mod Examples
use go_perl.Prelude.{
  ℕ, ◌+◌, ◌*◌, ◌%◌, ◌^◌, Bool, true, false, ◌&&◌, not, List, [], ◌∷◌, ◌==◌, if◌then◌else◌,
}
use go_perl.Bridge.{Guest, World, Log, magic_ext, magic_chain, magic_del, magic_set_head, emit}
use go_perl.Bridge.Op.{sv_magic_std, sv_unmagic}
use go_perl.Flush.{flush, do_op}

-- `svmagic_sv`, `svmagic_val` and `svmagic_orig` of the shared block; a `MAGIC *` is its address.
pub record MagicSlot : Type 0 where
  pub world : World
  pub svmagic_sv : ℕ
  pub svmagic_val : ℕ
  pub svmagic_orig : ℕ

-- The first lines of `goperl_svmagic_lv`, for an assignment that was not sent yet.
pub svmagic_writeback : MagicSlot → World
svmagic_writeback m =
    if not (m.svmagic_sv == 0) && not (m.svmagic_val == m.svmagic_orig)
    then record (m.world) { log = emit (magic_set_head m.svmagic_sv m.svmagic_val) m.world.log }
    else m.world

-- `goperl_svmagic_lv`, whose pointer is the one to the slot.
pub svmagic_lv : Guest → ℕ → MagicSlot → MagicSlot
unfolding svmagic_writeback
svmagic_lv g sv m =
    let w = flush (svmagic_writeback m) in
    let head = g.answer w.log (magic_chain sv) in
    record {
      world = record w { log = emit (magic_chain sv) w.log };
      svmagic_sv = sv;
      svmagic_val = head;
      svmagic_orig = head;
    }

-- `SvMAGIC(sv) = mg`, the module's store into the slot.
pub svmagic_assign : ℕ → MagicSlot → MagicSlot
svmagic_assign mg m = record m { svmagic_val = mg }

-- A node of a chain: its address, and the fields that are read.
pub record Magic : Type 0 where
  pub address : ℕ
  pub mg_type : ℕ

-- The loop of `goperl_mg_find`: the address, or 0.
pub find_type : ℕ → List Magic → ℕ
find_type type [] = 0
find_type type (mg ∷ more) =
    let later = find_type type more in if mg.mg_type == type % 2 ^ 8 then mg.address else later

-- `goperl_mg_find`; `chains` are the nodes behind what `magic_chain` answers.
pub mg_find : (Log → ℕ → List Magic) → ℕ → ℕ → World → ℕ × World
unfolding find_type
mg_find chains sv type w =
    let flushed = flush w in
    (
      find_type type (chains flushed.log sv),
      record flushed { log = emit (magic_chain sv) flushed.log },
    )

-- A call of the loader behind a flush, whose answer is a pointer or is not used.
pub flushed_call : World → (Log → Log) → World
flushed_call w call = let flushed = flush w in record flushed { log = call flushed.log }

-- `sv_magicext`, without its answer; `sv_unmagicext`; `SvMAGIC_set`
pub sv_magicext : ℕ → ℕ → ℕ → ℕ → List ℕ → World → World
unfolding flushed_call
sv_magicext sv obj how vtbl name w = flushed_call w (emit (magic_ext sv obj how vtbl name))

pub sv_unmagicext : ℕ → ℕ → ℕ → World → World
unfolding flushed_call
sv_unmagicext sv how vtbl w = flushed_call w (emit (magic_del sv how vtbl))

pub svmagic_set : ℕ → ℕ → World → World
unfolding flushed_call
svmagic_set sv mg w = flushed_call w (emit (magic_set_head sv mg))

-- `sv_unmagic`: from the loader's chain, and from the interpreter's.
pub sv_unmagic_both : Guest → ℕ → ℕ → World → World
unfolding sv_unmagicext
sv_unmagic_both g sv how w = (do_op g sv_unmagic sv (how % 2 ^ 32) [] (sv_unmagicext sv how 0 w)).1

-- `goperl_sv_magic`, for a name of `namlen` bytes or none: to the interpreter, and to the chain.
pub sv_magic : Guest → ℕ → ℕ → ℕ → List ℕ → World → World
unfolding sv_magicext
sv_magic g sv obj how name w =
    let operand = how % 2 ^ 32 * 2 ^ 32 + obj % 2 ^ 32 in
    sv_magicext sv obj how 0 name (do_op g sv_magic_std sv operand name w).1

-- The operations above that leave the slot alone, as a module calls them.
pub data MagicOp : Type 0 where
  finding : ℕ → ℕ → MagicOp
  attaching : ℕ → ℕ → ℕ → ℕ → List ℕ → MagicOp
  detaching : ℕ → ℕ → ℕ → MagicOp
  heading : ℕ → ℕ → MagicOp
  unmagicking : ℕ → ℕ → MagicOp
  tying : ℕ → ℕ → ℕ → List ℕ → MagicOp

pub magic_op : Guest → (Log → ℕ → List Magic) → MagicOp → World → World
unfolding mg_find sv_magicext sv_unmagicext svmagic_set sv_unmagic_both sv_magic
magic_op g chains (finding sv type) w = (mg_find chains sv type w).1
magic_op g chains (attaching sv obj how vtbl name) w = sv_magicext sv obj how vtbl name w
magic_op g chains (detaching sv how vtbl) w = sv_unmagicext sv how vtbl w
magic_op g chains (heading sv mg) w = svmagic_set sv mg w
magic_op g chains (unmagicking sv how) w = sv_unmagic_both g sv how w
magic_op g chains (tying sv obj how name) w = sv_magic g sv obj how name w

pub magic_ops : Guest → (Log → ℕ → List Magic) → List MagicOp → MagicSlot → MagicSlot
unfolding magic_op
magic_ops g chains [] m = m
magic_ops g chains (op ∷ ops) m =
    magic_ops g chains ops (record m { world = magic_op g chains op m.world })
