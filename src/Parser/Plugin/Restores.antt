-- ===== src/Parser/Plugin/Restores.antt =====
-- What the call of the plugin chains puts back, on every way out.
use mathlib.Core.Path.{ap₂}
use go_perl.Prelude.{
  ℕ, ◌+◌, ◌≡◌, refl, sym, ap, ◌∙◌, Bool, true, Option, none, some, List, [], ◌==◌, ltb, length,
  arith, Bool-cases, inl, inr,
}
use go_perl.Bridge.{Guest}
use go_perl.Save.{Host, unwind, Action, run}
use go_perl.Save.Undo.{IsMemory, Guarded}
use go_perl.Save.Restore.{unwind-run, unwind-same}
use go_perl.Optree.{Flushed, flushed, croaked, optree_flush}
use go_perl.Parser.{parser_pull}
use go_perl.Parser.Plugin.{
  Plugin, decline, plugin, Invocation, Plugged, plugged, croaking, Plugins, run_plugin, Body, body,
  body_croak, with_compile, claim, keyword_end, keyword_body, infix_end, infix_body, invoke_body,
  set_persist, Answer, answered, failed, invoke_end, keyword_invoke,
}

abbrev pub state_of : Answer → Invocation
state_of (answered rc ret op s) = s
state_of (failed s) = s

abbrev body_state : Body → Invocation
body_state (body rc ret op s) = s
body_state (body_croak s) = s

abbrev pub plugged_state : Plugged → Invocation
plugged_state (plugged ret op s) = s
plugged_state (croaking s) = s

-- The host state of the call, at a scope.
abbrev pub host_at : ℕ → Invocation → Host
host_at scope s = record {
  memory = s.memory;
  saves = s.saves;
  scope = scope;
  world = s.compile.tree.world;
}

-- The modules' functions save what they write, and leave the count of activations and the fields
-- `prev_frame` and `hostsave_base` of the frame as they found them.
abbrev pub Disciplined : Plugins → Type 0
Disciplined plugins =
    (n : ℕ) (word : List ℕ) (s : Invocation)
    → let s' = plugged_state (plugins n word s) in
      (s'.depth ≡ s.depth)
      × (s'.frame_base ≡ s.frame_base)
      × (s'.frame_prev ≡ s.frame_prev)
      × (scope : ℕ) × (actions : List Action) × (h : Host) × Guarded [] actions
      × (run actions (host_at scope s) ≡ some h)
      × (s'.saves ≡ h.saves)
      × (s'.memory ≡ h.memory)

-- The host save stack of the first state ends at its base, over 32-bit words.
abbrev Based : Invocation → Type 0
Based s = (s.frame_base ≡ length s.saves) × IsMemory s.memory

-- What the body of the call keeps; unwinding leads back to the host state before.
abbrev Kept : Invocation → Invocation → Type 0
Kept s s' =
    (s'.depth ≡ s.depth)
    × (s'.frame_base ≡ s.frame_base)
    × (s'.frame_prev ≡ s.frame_prev)
    × (unwind s.frame_base s'.saves s'.memory ≡ (s.saves, s.memory))

run-unwind :
    (scope : ℕ) (actions : List Action) (s : Invocation) (h : Host)
    → Based s
    → Guarded [] actions
    → run actions (host_at scope s) ≡ some h
    → unwind s.frame_base h.saves h.memory ≡ (s.saves, s.memory)
run-unwind scope actions s h (base, words) guard ran =
    ap (λ n. unwind n h.saves h.memory) base
    ∙ unwind-run actions (host_at scope s) h words guard ran

Kept-same : (s : Invocation) → Based s → Kept s s
Kept-same s (base, words) =
    (refl, refl, refl, ap (λ n. unwind n s.saves s.memory) base ∙ unwind-same (host_at 0 s) words)

run_plugin-keeps :
    (plugins : Plugins) (p : Plugin) (word : List ℕ) (s : Invocation)
    → Based s
    → Disciplined plugins
    → Kept s (plugged_state (run_plugin plugins p word s))
unfolding run_plugin
run_plugin-keeps plugins decline word s based d = Kept-same s based
run_plugin-keeps plugins (plugin n) word s based d =
    let (depth, base, prev, scope, actions, h, guard, ran, saves, memory) = d n word s in
    (
      depth,
      base,
      prev,
      ap₂ (unwind s.frame_base) saves memory ∙ run-unwind scope actions s h based guard ran,
    )

module _ (s0 : Invocation) (based : Based s0) where
  claim-keeps :
      (g : Guest) (ret op : ℕ) (s : Invocation) (r : Flushed)
      → Kept s0 s
      → Kept s0 (body_state (claim g ret op s r))
  unfolding claim with_compile
  claim-keeps g ret op s (croaked t) k = k
  claim-keeps g ret op s (flushed t) k = k

  keyword_end-keeps :
      (g : Guest) (perop : Bool) (p : Plugged)
      → Kept s0 (plugged_state p)
      → Kept s0 (body_state (keyword_end g perop p))
  unfolding keyword_end with_compile
  keyword_end-keeps g perop (croaking s) k = k
  keyword_end-keeps g perop (plugged ret op s) k = elim (Bool-cases (ret == 0)) [
    | inl e ↦ rw e k
    | inr e ↦ rw e (claim-keeps g ret op s (optree_flush g perop s.compile.tree) k)
  ]

  infix_end-keeps : (p : Plugged) → Kept s0 (plugged_state p) → Kept s0 (body_state (infix_end p))
  unfolding infix_end
  infix_end-keeps (croaking s) k = k
  infix_end-keeps (plugged len op s) k = elim (Bool-cases (len == 0)) [
    | inl e ↦ rw e k
    | inr e ↦ rw e k
  ]

  keyword_body-keeps :
      (g : Guest) (perop : Bool) (plugins : Plugins) (head : Plugin) (word : List ℕ)
      → Disciplined plugins
      → Kept s0 (body_state (keyword_body g perop plugins head word s0))
  unfolding keyword_body with_compile
  keyword_body-keeps g perop plugins head word d =
      let s' : Invocation = record s0 { compile = parser_pull g s0.compile } in
      elim (Bool-cases (ltb (length word) 256)) [
        | inl e ↦ rw e (
            keyword_end-keeps g perop (run_plugin plugins head word s')
              (run_plugin-keeps plugins head word s' based d))
        | inr e ↦ rw e (Kept-same s0 based)
      ]

  infix_body-keeps :
      (plugins : Plugins) (head : Plugin) (word : List ℕ)
      → Disciplined plugins
      → Kept s0 (body_state (infix_body plugins head word s0))
  unfolding infix_body
  infix_body-keeps plugins head word d = elim (Bool-cases (ltb (length word) 256)) [
    | inl e ↦ rw e (
        infix_end-keeps (run_plugin plugins head word s0)
          (run_plugin-keeps plugins head word s0 based d))
    | inr e ↦ rw e (Kept-same s0 based)
  ]

  chain-keeps :
      (o : Option Plugin) (f : Plugin → Body)
      → ((p : Plugin) → Kept s0 (body_state (f p)))
      → Kept s0 (body_state (elim o as (λ _. Body) [ none ↦ body 0 0 0 s0 | some p ↦ f p ]))
  chain-keeps none f h = Kept-same s0 based
  chain-keeps (some p) f h = h p

  invoke_body-keeps :
      (g : Guest) (perop : Bool) (plugins : Plugins) (kind : ℕ) (word : List ℕ)
      → Disciplined plugins
      → Kept s0 (body_state (invoke_body g perop plugins kind word s0))
  unfolding invoke_body
  invoke_body-keeps g perop plugins kind word d = elim (Bool-cases (kind == 0)) [
    | inl k ↦ rw k (
        chain-keeps s0.chains.kw_head (λ p. keyword_body g perop plugins p word s0)
          (λ p. keyword_body-keeps g perop plugins p word d))
    | inr k ↦ elim (Bool-cases (kind == 1)) [
      | inl i ↦
          rw (k, i)
            (chain-keeps s0.chains.infix_head (λ p. infix_body plugins p word s0)
              (λ p. infix_body-keeps plugins p word d))
      | inr i ↦ rw (k, i) (Kept-same s0 based)
    ]
  ]

-- The fields of the state that the call puts back on every way out.
abbrev pub Restored : Invocation → Invocation → Type 0
Restored s s' =
    (s'.frame_jb ≡ s.frame_jb)
    × (s'.cur_frame ≡ s.cur_frame)
    × (s'.compile.tree.persist_mode ≡ s.compile.tree.persist_mode)
    × (s'.depth ≡ s.depth)

-- The two fields of the frame that the call leaves as it assigned them.
abbrev pub LeftArmed : Invocation → Invocation → Type 0
LeftArmed s s' = (s'.frame_prev ≡ s.cur_frame) × (s'.frame_base ≡ length s.saves)

-- The host save stack and the memory behind the call.
abbrev pub HostBack : Invocation → Answer → Type 0
HostBack s (answered rc ret op s') =
    unwind (length s.saves) s'.saves s'.memory ≡ (s.saves, s.memory)
HostBack s (failed s') = (s'.saves ≡ s.saves) × (s'.memory ≡ s.memory)

-- The state after the call against that before.
abbrev pub IsBack : Invocation → Answer → Type 0
IsBack s r = Restored s (state_of r) × LeftArmed s (state_of r) × HostBack s r

invoke_end-IsBack :
    (s s1 : Invocation) (r : Body)
    → s1.depth ≡ s.depth + 1
    → s1.frame_prev ≡ s.cur_frame
    → s1.frame_base ≡ length s.saves
    → s1.saves ≡ s.saves
    → s1.memory ≡ s.memory
    → Kept s1 (body_state r)
    → IsBack s (invoke_end s.frame_jb s.cur_frame s.compile.tree.persist_mode r)
unfolding invoke_end set_persist
invoke_end-IsBack s s1 (body rc ret op s') d p b l m (depth, base, prev, back) = (
  (refl, refl, refl, (omega arith)),
  (prev ∙ p, base ∙ b),
  ap (λ n. unwind n s'.saves s'.memory) (sym b) ∙ back ∙ ap₂ (λ x y. (x, y)) l m,
)
invoke_end-IsBack s s1 (body_croak s') d p b l m (depth, base, prev, back) =
    let undone : unwind s'.frame_base s'.saves s'.memory ≡ (s.saves, s.memory) =
      ap (λ n. unwind n s'.saves s'.memory) base ∙ back ∙ ap₂ (λ x y. (x, y)) l m in
    (
      (refl, refl, refl, (omega arith)),
      (prev ∙ p, base ∙ b),
      (ap (λ q. q.0) undone, ap (λ q. q.1) undone),
    )

-- The state in which the body of the call begins.
abbrev begun : ℕ → ℕ → Invocation → Invocation
begun frame own s = record s {
  compile = set_persist true s.compile;
  cur_frame = frame;
  depth = s.depth + 1;
  frame_jb = own;
  frame_prev = s.cur_frame;
  frame_base = length s.saves;
}

-- Whatever the plugins of the chains do within the conditions, a croak included, and whatever the
-- word and its kind are, the call leaves the frame's `jb`, the current frame, the mode of the op
-- registry and the count of activations as they were; `prev_frame` stays the frame that was current,
-- and `hostsave_base` the height of the host save stack before the call. After a croak the host save
-- stack and the memory outside the frame are those before the call; after a return, unwinding to
-- that height leads to them. The conditions: the memory has 32-bit words, and the modules' functions save what they
-- write to it and leave the count and these two fields as they found them.
pub keyword_invoke-IsBack :
    (g : Guest) (perop : Bool) (plugins : Plugins) (frame own kind : ℕ) (word : List ℕ)
    (s : Invocation)
    → IsMemory s.memory
    → Disciplined plugins
    → IsBack s (keyword_invoke g perop plugins frame own kind word s)
unfolding keyword_invoke set_persist
keyword_invoke-IsBack g perop plugins frame own kind word s words d =
    invoke_end-IsBack s (begun frame own s) _ refl refl refl refl refl
      (invoke_body-keeps (begun frame own s) (refl, words) g perop plugins kind word d)
