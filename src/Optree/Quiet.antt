-- ===== src/Optree/Quiet.antt =====
-- `goperl_optree_flush`: behind a write-back there is nothing to write.
use mathlib.Core.Path.{subst}
use go_perl.Prelude.{ℕ, Bool, List, [], ◌∷◌, ◌≡◌, refl, sym, ap, ◌∙◌, All}
use go_perl.Bridge.{Guest}
use go_perl.Optree.{Optree, Flushed, flushed, croaked, flush_chain, flush_chains, optree_flush}
use go_perl.Optree.Kept.{AllKept, IsWritten, Kept-IsWritten, flush_chains_keeps}
use go_perl.Optree.Clean.{
  IsClean, AllClean, Same, op_flush_one-clean, SettlesAll, flush_chain-Settles,
}

-- The chains of a state that are clean, and what the write-back of the others keeps.
SettlesChains : List (List ℕ) → Optree → Flushed → Type 0
SettlesChains chains t (croaked t') = Unit
SettlesChains chains t (flushed t') =
    AllClean chains t'
    × ((x : ℕ) → IsClean (t.ops x) → IsClean (t'.ops x))
    × (t'.buckets ≡ t.buckets)

All-map : {P Q : ℕ → Type 0} (chain : List ℕ) → ((x : ℕ) → P x → Q x) → All P chain → All Q chain
All-map [] f h = tt
All-map (a ∷ chain) f h = (f a h.0, All-map chain f h.1)

flush_chains-croaked :
    (g : Guest) (perop : Bool) (chains : List (List ℕ)) (t : Optree)
    → flush_chains g perop chains (croaked t) ≡ croaked t
unfolding flush_chains flush_chain
flush_chains-croaked g perop [] t = refl
flush_chains-croaked g perop ([] ∷ chains) t = flush_chains-croaked g perop chains t
flush_chains-croaked g perop ((a ∷ chain) ∷ chains) t = flush_chains-croaked g perop chains t

SettlesChains-cons :
    (chain : List ℕ) (chains : List (List ℕ)) (t t' : Optree) (r : Flushed)
    → SettlesAll chain t (flushed t')
    → SettlesChains chains t' r
    → SettlesChains (chain ∷ chains) t r
unfolding SettlesChains SettlesAll
SettlesChains-cons chain chains t t' (croaked u) s h = tt
SettlesChains-cons chain chains t t' (flushed u) s h =
    ((All-map chain h.1 s.0, h.0), λ x k. h.1 x (s.1 x k), h.2 ∙ s.2)

flush_chains_from-Settles :
    (g : Guest) (perop : Bool) (chain : List ℕ) (chains : List (List ℕ)) (t : Optree) (r : Flushed)
    → SettlesAll chain t r
    → ((t' : Optree) → SettlesChains chains t' (flush_chains g perop chains (flushed t')))
    → SettlesChains (chain ∷ chains) t (flush_chains g perop chains r)
unfolding SettlesChains SettlesAll
flush_chains_from-Settles g perop chain chains t (croaked t') s rest =
    rw (flush_chains-croaked g perop chains t') tt
flush_chains_from-Settles g perop chain chains t (flushed t') s rest =
    SettlesChains-cons chain chains t t' (flush_chains g perop chains (flushed t')) s (rest t')

flush_chains-Settles :
    (g : Guest) (perop : Bool) (chains : List (List ℕ)) (t : Optree)
    → SettlesChains chains t (flush_chains g perop chains (flushed t))
unfolding flush_chains SettlesChains
flush_chains-Settles g perop [] t = (tt, λ x k. k, refl)
flush_chains-Settles g perop (chain ∷ chains) t =
    flush_chains_from-Settles g perop chain chains t (flush_chain g perop chain (flushed t))
      (flush_chain-Settles g perop chain t) (flush_chains-Settles g perop chains)

Same-trans : (t u v : Optree) → Same t u → Same u v → Same t v
Same-trans t u v h k = (k.0 ∙ h.0, k.1 ∙ h.1, λ a. k.2 a ∙ h.2 a)

Same-IsClean :
    (t u : Optree) (chain : List ℕ)
    → Same t u
    → All (λ a. IsClean (t.ops a)) chain
    → All (λ a. IsClean (u.ops a)) chain
Same-IsClean t u chain s h = All-map chain (λ x k. subst IsClean (sym (s.2 x)) k) h

flush_chain-clean :
    (g : Guest) (perop : Bool) (chain : List ℕ) (t : Optree)
    → All (λ a. IsClean (t.ops a)) chain
    → (t' : Optree) × (flush_chain g perop chain (flushed t) ≡ flushed t') × Same t t'
unfolding flush_chain
flush_chain-clean g perop [] t h = (t, refl, (refl, refl, λ a. refl))
flush_chain-clean g perop (a ∷ chain) t h =
    let (u, is, same) = op_flush_one-clean g perop a t h.0 in
    let (v, is', same') = flush_chain-clean g perop chain u (Same-IsClean t u chain same h.1) in
    (v, ap (flush_chain g perop chain) is ∙ is', Same-trans t u v same same')

AllClean-Same :
    (t u : Optree) (chains : List (List ℕ)) → Same t u → AllClean chains t → AllClean chains u
AllClean-Same t u [] s h = tt
AllClean-Same t u (chain ∷ chains) s h =
    (Same-IsClean t u chain s h.0, AllClean-Same t u chains s h.1)

flush_chains-clean :
    (g : Guest) (perop : Bool) (chains : List (List ℕ)) (t : Optree)
    → AllClean chains t
    → (t' : Optree) × (flush_chains g perop chains (flushed t) ≡ flushed t') × Same t t'
unfolding flush_chains
flush_chains-clean g perop [] t h = (t, refl, (refl, refl, λ a. refl))
flush_chains-clean g perop (chain ∷ chains) t h =
    let (u, is, same) = flush_chain-clean g perop chain t h.0 in
    let (v, is', same') = flush_chains-clean g perop chains u (AllClean-Same t u chains same h.1) in
    (v, ap (flush_chains g perop chains) is ∙ is', Same-trans t u v same same')

All-IsWritten :
    (chain : List ℕ) (t t' : Optree)
    → AllKept t t'
    → All (λ a. IsClean (t'.ops a)) chain
    → All (λ a. IsWritten (t.ops a) (t'.ops a)) chain
All-IsWritten chain t t' kept h =
    All-map chain (λ a k. Kept-IsWritten (t.ops a) (t'.ops a) (kept a) k) h

chains-IsWritten :
    (chains : List (List ℕ)) (t t' : Optree)
    → AllKept t t'
    → AllClean chains t'
    → All (All (λ a. IsWritten (t.ops a) (t'.ops a))) chains
chains-IsWritten [] t t' kept h = tt
chains-IsWritten (chain ∷ chains) t t' kept h =
    (All-IsWritten chain t t' kept h.0, chains-IsWritten chains t t' kept h.1)

-- After a write-back of the whole tree that did not croak, the baseline of every op in the registry
-- that has a token and had a baseline is what the op held before. No op, wherever it is, has lost
-- its baseline, got one that it had not, or changed in its token and in the fields that are written
-- back. A second write-back calls nothing and changes no op.
pub optree_flush_lem :
    (g : Guest) (perop : Bool) (t t' : Optree)
    → optree_flush g perop t ≡ flushed t'
    → All (All (λ a. IsWritten (t.ops a) (t'.ops a))) t.buckets
      × AllKept t t'
      × ((t'' : Optree) × (optree_flush g perop t' ≡ flushed t'') × Same t' t'')
unfolding optree_flush SettlesChains
optree_flush_lem g perop t t' h =
    let s = subst (SettlesChains t.buckets t) h (flush_chains-Settles g perop t.buckets t) in
    let clean : AllClean t'.buckets t' = subst (λ c. AllClean c t') (sym s.2) s.0 in
    let kept = flush_chains_keeps g perop t.buckets t t' h in
    (chains-IsWritten t.buckets t t' kept s.0, kept, flush_chains-clean g perop t'.buckets t' clean)
