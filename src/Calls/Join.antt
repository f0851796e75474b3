-- ===== src/Calls/Join.antt =====
-- What `goperl_do_join` asks of the interpreter: the SVs with the delimiter between them.
use mathlib.Core.List.{append-nil, append_assoc}
use go_perl.Prelude.{ℕ, ◌≡◌, refl, sym, ap, ◌∙◌, true, false, List, [], ◌∷◌, ◌++◌, map}
use go_perl.Bridge.{Guest, xs_op, World, Log}
use go_perl.Bridge.Op.{sv_setpvn, sv_catsv}
use go_perl.Flush.{do_op}
use go_perl.Flush.Spec.{pending}
use go_perl.Flush.Funnel.{do_op_lem}
use go_perl.Calls.{join_loop, do_join}

-- The items with the delimiter between each two of them.
abbrev pub separated : ℕ → List ℕ → List ℕ
separated delim [] = []
separated delim (p ∷ []) = p ∷ []
separated delim (p ∷ q ∷ items) = p ∷ delim ∷ separated delim (q ∷ items)

abbrev pub appends : ℕ → List ℕ → Log
appends sv items = map (λ (x : ℕ). xs_op sv_catsv sv x []) items

-- One append, where nothing is pending.
catsv-log :
    (g : Guest) (sv x : ℕ) (w : World)
    → pending w ≡ []
    → (do_op g sv_catsv sv x [] w).1.log ≡ w.log ++ (xs_op sv_catsv sv x [] ∷ [])
catsv-log g sv x w quiet =
    ap (λ (r : ℕ × World). r.1.log) (do_op_lem g sv_catsv sv x [] w).0
    ∙ ap (λ l. l ++ (xs_op sv_catsv sv x [] ∷ [])) (ap (λ l. w.log ++ l) quiet ∙ append-nil w.log)

-- The items behind the first, each with the delimiter in front.
rest_appends : (sv delim : ℕ) (items : List ℕ) → Log
rest_appends sv delim [] = []
rest_appends sv delim (p ∷ items) =
    xs_op sv_catsv sv delim [] ∷ xs_op sv_catsv sv p [] ∷ rest_appends sv delim items

rest_appends-separated :
    (sv delim p : ℕ) (items : List ℕ)
    → xs_op sv_catsv sv p [] ∷ rest_appends sv delim items
      ≡ appends sv (separated delim (p ∷ items))
unfolding rest_appends
rest_appends-separated sv delim p [] = refl
rest_appends-separated sv delim p (q ∷ items) =
    ap (λ l. xs_op sv_catsv sv p [] ∷ xs_op sv_catsv sv delim [] ∷ l)
      (rest_appends-separated sv delim q items)

join_loop-rest :
    (g : Guest) (sv delim : ℕ) (items : List ℕ) (w : World)
    → pending w ≡ []
    → (join_loop g sv delim false items w).log ≡ w.log ++ rest_appends sv delim items
unfolding join_loop rest_appends
join_loop-rest g sv delim [] w quiet = sym (append-nil w.log)
join_loop-rest g sv delim (p ∷ items) w quiet =
    let w₁ = (do_op g sv_catsv sv delim [] w).1 in
    let w₂ = (do_op g sv_catsv sv p [] w₁).1 in
    let quiet₁ = (do_op_lem g sv_catsv sv delim [] w).1 in
    join_loop-rest g sv delim items w₂ (do_op_lem g sv_catsv sv p [] w₁).1
    ∙ rw (catsv-log g sv p w₁ quiet₁, catsv-log g sv delim w quiet) (simp append_assoc)

join_loop-first :
    (g : Guest) (sv delim : ℕ) (items : List ℕ) (w : World)
    → pending w ≡ []
    → (join_loop g sv delim true items w).log ≡ w.log ++ appends sv (separated delim items)
unfolding join_loop
join_loop-first g sv delim [] w quiet = sym (append-nil w.log)
join_loop-first g sv delim (p ∷ items) w quiet =
    let w₁ = (do_op g sv_catsv sv p [] w).1 in
    join_loop-rest g sv delim items w₁ (do_op_lem g sv_catsv sv p [] w).1
    ∙ rw (catsv-log g sv p w quiet) (append_assoc w.log (xs_op sv_catsv sv p [] ∷ []) _)
    ∙ ap (λ l. w.log ++ l) (rest_appends-separated sv delim p items)

-- `do_join` sends what is pending, empties the target, and appends the items in order, with the
-- delimiter between each two of them and not around them; it makes no other call.
pub do_join_lem :
    (g : Guest) (sv delim : ℕ) (items : List ℕ) (w : World)
    → (do_join g sv delim items w).log
      ≡ (w.log ++ pending w) ++ (xs_op sv_setpvn sv 0 [] ∷ appends sv (separated delim items))
unfolding do_join
do_join_lem g sv delim items w =
    let asked = do_op_lem g sv_setpvn sv 0 [] w in
    join_loop-first g sv delim items (do_op g sv_setpvn sv 0 [] w).1 asked.1
    ∙ ap (λ (r : ℕ × World). r.1.log ++ appends sv (separated delim items)) asked.0
    ∙ append_assoc (w.log ++ pending w) (xs_op sv_setpvn sv 0 [] ∷ []) _
