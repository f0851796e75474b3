-- ===== src/Parser/Plugin.antt =====
-- The chains of keyword and infix plugins, and the call of them by the loader. A croak in a plugin
-- leaves by `longjmp`, to the entry that this call arms.
pub mod Restores
use go_perl.Prelude.{
  ℕ, zero, suc, ◌+◌, ◌-◌, ◌*◌, ◌%◌, ◌^◌, ◌<◌, ◌≡◌, ◌≢◌, ◌⊎◌, inl, inr, refl, sym, ap, ◌∙◌, Bool,
  true, false, ◌&&◌, ◌||◌, not, Option, none, some, List, [], ◌∷◌, ◌++◌, ◌==◌, ltb, if◌then◌else◌,
  length, arith, Bool-cases,
}
use go_perl.Bridge.{Guest, World}
use go_perl.Bridge.Op.{keyword_enable}
use go_perl.Flush.{do_op}
use go_perl.Save.{HostSave, Memory, unwind}
use go_perl.Optree.{Optree, Flushed, flushed, croaked, optree_flush}
use go_perl.Parser.{Compile, parser_pull, parser_push}

-- A function of a chain: the terminator, or a module's.
pub data Plugin : Type 0 where
  decline : Plugin
  plugin : ℕ → Plugin

-- `goperl_kw_head_v` and `goperl_infix_head_v`, none for null.
pub record Chains : Type 0 where
  pub kw_head : Option Plugin
  pub infix_head : Option Plugin

abbrev pub or_decline : Option Plugin → Plugin
or_decline none = decline
or_decline (some p) = p

-- `goperl_wrap_keyword_plugin`: the module's variable, the chains and the state behind it.
pub wrap_keyword_plugin :
    Guest → Plugin → Option Plugin → Chains → World → Option Plugin × Chains × World
wrap_keyword_plugin g func (some v) c w = (some v, c, w)
wrap_keyword_plugin g func none c w = (
  some (or_decline c.kw_head),
  record c { kw_head = some func },
  (do_op g keyword_enable 0 0 [] w).1,
)

-- `goperl_wrap_infix_plugin`
pub wrap_infix_plugin :
    Guest → Plugin → Option Plugin → Chains → World → Option Plugin × Chains × World
wrap_infix_plugin g func (some v) c w = (some v, c, w)
wrap_infix_plugin g func none c w = (
  some (or_decline c.infix_head),
  record c { infix_head = some func },
  (do_op g keyword_enable 1 0 [] w).1,
)

-- The state that the call works on: `frame_jb`, `frame_prev` and `frame_base` are fields of the
-- loader's frame, `saves` is the host save stack, and `memory` the memory outside that frame. The
-- frame's `failed` and `err`, which a croak writes, are not in it.
pub record Invocation : Type 0 where
  pub compile : Compile
  pub chains : Chains
  pub saves : List HostSave
  pub memory : Memory
  pub cur_frame : ℕ
  pub depth : ℕ
  pub frame_jb : ℕ
  pub frame_prev : ℕ
  pub frame_base : ℕ

-- How a plugin ends: its return value and its op, or a croak.
pub data Plugged : Type 0 where
  plugged : ℕ → ℕ → Invocation → Plugged
  croaking : Invocation → Plugged

-- The modules' functions, given their number and the word.
abbrev pub Plugins : Type 0
Plugins = ℕ → List ℕ → Invocation → Plugged

pub run_plugin : Plugins → Plugin → List ℕ → Invocation → Plugged
run_plugin plugins decline word s = plugged 0 0 s
run_plugin plugins (plugin n) word s = plugins n word s

-- The end of the body: `rc`, `*ret_out` and `*op_out`; or a croak.
pub data Body : Type 0 where
  body : ℕ → ℕ → ℕ → Invocation → Body
  body_croak : Invocation → Body

pub with_compile : Invocation → Compile → Invocation
with_compile s c = record s { compile = c }

-- What follows a keyword plugin that claimed the word.
pub claim : Guest → ℕ → ℕ → Invocation → Flushed → Body
unfolding with_compile
claim g ret op s (croaked t) = body_croak (with_compile s (record (s.compile) { tree = t }))
claim g ret op s (flushed t) =
    body 1 (ret % 2 ^ 32) (if op == 0 then 0 else (t.ops op).gop)
      (with_compile s (parser_push g (record (s.compile) { tree = t })))

-- What follows a keyword plugin.
pub keyword_end : Guest → Bool → Plugged → Body
unfolding claim with_compile
keyword_end g perop (croaking s) = body_croak s
keyword_end g perop (plugged ret op s) =
    let claimed = claim g ret op s (optree_flush g perop s.compile.tree) in
    if ret == 0 then body 0 0 0 (with_compile s (parser_push g s.compile)) else claimed

-- The case of a keyword; the copy of the word takes 256 bytes.
pub keyword_body : Guest → Bool → Plugins → Plugin → List ℕ → Invocation → Body
unfolding keyword_end with_compile run_plugin
keyword_body g perop plugins head word s =
    let s' = with_compile s (parser_pull g s.compile) in
    let ended = keyword_end g perop (run_plugin plugins head word s') in
    if ltb (length word) 256 then ended else body_croak s'

-- What follows an infix plugin: a claimed operator is a croak.
pub infix_end : Plugged → Body
infix_end (croaking s) = body_croak s
infix_end (plugged len op s) = if len == 0 then body 0 0 0 s else body_croak s

pub infix_body : Plugins → Plugin → List ℕ → Invocation → Body
unfolding infix_end run_plugin
infix_body plugins head word s =
    let ended = infix_end (run_plugin plugins head word s) in
    if ltb (length word) 256 then ended else body_croak s

-- The body, by the kind of the word.
pub invoke_body : Guest → Bool → Plugins → ℕ → List ℕ → Invocation → Body
unfolding keyword_body infix_body
invoke_body g perop plugins kind word s =
    let keyword : Body = elim (s.chains.kw_head) [
      | none ↦ body 0 0 0 s
      | some head ↦ keyword_body g perop plugins head word s
    ] in
    let operator : Body = elim (s.chains.infix_head) [
      | none ↦ body 0 0 0 s
      | some head ↦ infix_body plugins head word s
    ] in
    if kind == 0 then keyword else if kind == 1 then operator else body 0 0 0 s

pub set_persist : Bool → Compile → Compile
set_persist b c = record c { tree = record (c.tree) { persist_mode = b } }

-- The result of the call: `rc` with what it stored, or -1.
pub data Answer : Type 0 where
  answered : ℕ → ℕ → ℕ → Invocation → Answer
  failed : Invocation → Answer

-- The return of `__goperl_keyword_invoke`, with what it kept in its variables put back.
pub invoke_end : ℕ → ℕ → Bool → Body → Answer
unfolding set_persist
invoke_end prev_jb prev_frame prev_persist (body rc ret op s) = answered rc ret op (record s {
  compile = set_persist prev_persist s.compile;
  cur_frame = prev_frame;
  depth = s.depth - 1;
  frame_jb = prev_jb;
})
invoke_end prev_jb prev_frame prev_persist (body_croak s) =
    let (saves, memory) = unwind s.frame_base s.saves s.memory in
    failed (record s {
      compile = set_persist prev_persist s.compile;
      saves = saves;
      memory = memory;
      cur_frame = prev_frame;
      depth = s.depth - 1;
      frame_jb = prev_jb;
    })

-- `__goperl_keyword_invoke`, on the frame `frame`; `own` is its `jmp_buf`.
pub keyword_invoke : Guest → Bool → Plugins → ℕ → ℕ → ℕ → List ℕ → Invocation → Answer
unfolding invoke_body invoke_end set_persist
keyword_invoke g perop plugins frame own kind word s =
    invoke_end s.frame_jb s.cur_frame s.compile.tree.persist_mode (
      invoke_body g perop plugins kind word (record s {
        compile = set_persist true s.compile;
        cur_frame = frame;
        depth = s.depth + 1;
        frame_jb = own;
        frame_prev = s.cur_frame;
        frame_base = length s.saves;
      }))

-- `goperl_xop_ent_t`
pub record XopEnt : Type 0 where
  pub pp : ℕ
  pub xop : ℕ

-- `GOPERL_XOP_MAX`
abbrev pub xop_max : ℕ
xop_max = 64

-- `goperl_custom_op_register`, on the entries in use: a full table drops the registration.
pub custom_op_register : ℕ → ℕ → List XopEnt → List XopEnt
custom_op_register pp xop ents =
    if ltb (length ents) xop_max then ents ++ (record { pp = pp; xop = xop } ∷ []) else ents
