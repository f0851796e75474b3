-- ===== src/Calls/Results.antt =====
-- Where the results of a call stand, and what the rest of the stack is.
use go_perl.Prelude.{
  ℕ, zero, suc, ◌+◌, ◌<◌, ◌≤◌, ◌≡◌, refl, ap, sym, ◌∙◌, List, [], ◌∷◌, ◌++◌, get_or, set, length,
  length-set, get_or-set, get_or-set_other, arith,
}
use mathlib.Core.List.{append_assoc, append-nil}
use mathlib.Core.Path.{ap₂}
use go_perl.Bridge.{xs_op, Log, Guest, emit}
use go_perl.Bridge.Op.{av_fetch}
use go_perl.Calls.{push_results}

-- The calls that fetch `left` elements from `i` on.
abbrev pub fetches : ℕ → ℕ → ℕ → Log
fetches avtok i zero = []
fetches avtok i (suc left) = xs_op av_fetch avtok i [] ∷ fetches avtok (i + 1) left

-- The loop above `sp`: it makes the fetches in order, leaves what stands up to `sp`, and puts the
-- interpreter's answer to fetch `k` at `sp + 1 + k`.
pub record ArePushed (g : Guest) (avtok sp i left : ℕ) (st : List ℕ) (log : Log) (r : List ℕ × Log)
    : Type 0 where
  pub calls : r.1 ≡ log ++ fetches avtok i left
  pub size : length r.0 ≡ length st
  pub below : (j : ℕ) → j ≤ sp → get_or r.0 j 0 ≡ get_or st j 0
  pub at :
      (k : ℕ)
      → k < left
      → get_or r.0 (sp + 1 + k) 0
        ≡ g.answer (log ++ fetches avtok i k) (xs_op av_fetch avtok (i + k) [])

element :
    (g : Guest) (avtok sp i left : ℕ) (st : List ℕ) (log : Log)
    → sp + suc left < length st
    → {r : List ℕ × Log}
    → let call = xs_op av_fetch avtok i [] in
      ArePushed g avtok
        (sp + 1)
        (i + 1)
        left
        (set st (sp + 1) (g.answer log call))
        (emit call log)
        r
      → (k : ℕ) → k < suc left
      → get_or r.0 (sp + 1 + k) 0
        ≡ g.answer (log ++ fetches avtok i k) (xs_op av_fetch avtok (i + k) [])
element g avtok sp i left st log h {r} rest zero l =
    let call = xs_op av_fetch avtok i [] in
    let here : sp + 1 + 0 ≡ sp + 1 = omega arith in
    let first : i ≡ i + 0 = omega arith in
    ap (λ x. get_or r.0 x 0) here
    ∙ rest.below (sp + 1) (omega arith)
    ∙ get_or-set st (sp + 1) (g.answer log call) 0 (omega (arith, h))
    ∙ ap₂ (λ x y. g.answer x (xs_op av_fetch avtok y [])) (sym (append-nil log)) first
element g avtok sp i left st log h {r} rest (suc k) l =
    let there : sp + 1 + suc k ≡ sp + 1 + 1 + k = omega arith in
    let later : i + 1 + k ≡ i + suc k = omega arith in
    ap (λ x. get_or r.0 x 0) there
    ∙ rest.at k (omega (arith, l))
    ∙ ap₂ (λ x y. g.answer x (xs_op av_fetch avtok y []))
        (append_assoc log (xs_op av_fetch avtok i [] ∷ []) (fetches avtok (i + 1) k)) later

pub push_results-ArePushed :
    (g : Guest) (avtok sp i left : ℕ) (st : List ℕ) (log : Log)
    → sp + left < length st
    → ArePushed g avtok sp i left st log (push_results g avtok sp i left st log)
unfolding push_results
push_results-ArePushed g avtok sp i zero st log h = record {
  calls = sym (append-nil log);
  size = refl;
  below = λ j l. refl;
  at = λ k l. absurd (omega (arith, l));
}
push_results-ArePushed g avtok sp i (suc left) st log h =
    let call = xs_op av_fetch avtok i [] in
    let v = g.answer log call in
    let rest =
      push_results-ArePushed g avtok (sp + 1) (i + 1) left (set st (sp + 1) v) (emit call log)
        (omega (arith, h, length-set st (sp + 1) v)) in
    record {
      calls = rest.calls ∙ append_assoc log (call ∷ []) (fetches avtok (i + 1) left);
      size = rest.size ∙ length-set st (sp + 1) v;
      below = λ j l.
          rest.below j (omega (arith, l))
          ∙ get_or-set_other st (sp + 1) j v 0 (λ e. omega (arith, e, l));
      at = λ k l. element g avtok sp i left st log h rest k l;
    }
