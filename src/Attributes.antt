-- ===== src/Attributes.antt =====
-- `apply_attrs_string` (xs/sdk/include/perl.h): the attributes of a new sub, given as one string,
-- go to `attributes::import` of the interpreter as one string SV each.
pub mod Words
pub mod Examples
use go_perl.Prelude.{
  ℕ, zero, suc, ◌+◌, ◌*◌, ◌%◌, ◌^◌, Bool, true, false, ◌||◌, List, [], ◌∷◌, ◌++◌, leb, ◌==◌,
  if◌then◌else◌, length,
}
use go_perl.Bridge.{Guest, World}
use go_perl.Bridge.Op.{eval_pv, new_pvn, sv_mortal, new_rv_inc, get_cv, call_sv}
use go_perl.Flush.{do_op}
use go_perl.Calls.{token_bytes}

-- `while (p < e && *p == ' ') p++`
pub skip_spaces : List ℕ → List ℕ
skip_spaces [] = []
skip_spaces (c ∷ s) = if c == b' ' then skip_spaces s else c ∷ s

-- `while (q < e && *q != ' ') q++`: the bytes from `p` to `q`, and those from `q` on.
pub word_at : List ℕ → List ℕ × List ℕ
word_at [] = ([], [])
word_at (c ∷ s) =
    let (word, rest) = word_at s in if c == b' ' then ([], c ∷ s) else (c ∷ word, rest)

-- A mortal string SV: the token, and the world.
pub mortal_pvn : Guest → List ℕ → World → ℕ × World
mortal_pvn g bytes w =
    let (sv, w') = do_op g new_pvn 0 (length bytes) bytes w in
    (sv, (do_op g sv_mortal sv 0 [] w').1)

abbrev pub is_nil : List ℕ → Bool
is_nil [] = true
is_nil (c ∷ s) = false

-- `n < 15` at most.
abbrev pub max_tokens : ℕ
max_tokens = 15

-- The loop over the words: `toks` and the world behind it. The fuel is one more than the length.
pub attr_loop : Guest → ℕ → List ℕ → List ℕ → World → List ℕ × World
unfolding mortal_pvn
attr_loop g zero s toks w = (toks, w)
attr_loop g (suc fuel) s toks w =
    let (word, rest) = word_at (skip_spaces s) in
    let (sv, w') = mortal_pvn g word w in
    let passed = attr_loop g fuel rest toks w in
    let taken = attr_loop g fuel rest (toks ++ (sv % 2 ^ 32 ∷ [])) w' in
    if is_nil s || leb max_tokens (length toks)
    then (toks, w)
    else if is_nil word
    then passed
    else taken

-- `toks` as the bytes that `memcpy` takes of them.
pub tokens_bytes : List ℕ → List ℕ
tokens_bytes [] = []
tokens_bytes (tok ∷ toks) = token_bytes tok ++ tokens_bytes toks

-- "require attributes"
abbrev pub require_attributes : List ℕ
require_attributes =
    b'r' ∷ b'e' ∷ b'q' ∷ b'u' ∷ b'i' ∷ b'r' ∷ b'e' ∷ b' ' ∷ b'a' ∷ b't' ∷ b't' ∷ b'r' ∷ b'i' ∷ b'b'
    ∷ b'u' ∷ b't' ∷ b'e' ∷ b's' ∷ []

-- "attributes::import"
abbrev pub attributes_import : List ℕ
attributes_import =
    b'a' ∷ b't' ∷ b't' ∷ b'r' ∷ b'i' ∷ b'b' ∷ b'u' ∷ b't' ∷ b'e' ∷ b's' ∷ b':' ∷ b':' ∷ b'i' ∷ b'm'
    ∷ b'p' ∷ b'o' ∷ b'r' ∷ b't' ∷ []

-- `G_VOID | G_DISCARD`
abbrev pub void_discard : ℕ
void_discard = 5

-- What follows the loop: the call, whose result is dropped.
pub import_attrs : Guest → List ℕ → World → World
unfolding tokens_bytes
import_attrs g toks w =
    let (cvtok, w') = do_op g get_cv 0 0 attributes_import w in
    let bytes = tokens_bytes toks in
    let called =
      do_op g call_sv (void_discard * 2 ^ 32 + cvtok % 2 ^ 32) (length toks * 4) bytes w' in
    if cvtok == 0 then w' else called.1

-- The tokens before the loop: the package's name and a reference to the sub.
pub attr_head : Guest → List ℕ → ℕ → World → List ℕ × World
unfolding mortal_pvn
attr_head g stashpv cv w =
    let (pkg, w₁) = mortal_pvn g stashpv (do_op g eval_pv 1 0 require_attributes w).1 in
    let (rv, w₂) = do_op g new_rv_inc cv 0 [] w₁ in
    (pkg % 2 ^ 32 ∷ rv % 2 ^ 32 ∷ [], (do_op g sv_mortal rv 0 [] w₂).1)

pub apply_attrs_string : Guest → List ℕ → ℕ → List ℕ → World → World
unfolding attr_head attr_loop import_attrs
apply_attrs_string g stashpv cv attrstr w =
    let (head, w₁) = attr_head g stashpv cv w in
    let (toks, w₂) = attr_loop g (suc (length attrstr)) attrstr head w₁ in import_attrs g toks w₂
