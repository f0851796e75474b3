-- ===== src/Threads/Knowledge.antt =====
-- What a thread knows of the slots in each phase of `goperl_curframe_slot`, and that the
-- steps of all threads keep it.
use mathlib.Core.Path.{subst}
use go_perl.Prelude.{
  ℕ, suc, ◌<◌, ◌≡◌, ◌≢◌, inl, inr, refl, sym, ap, ◌∙◌, false, ◌==◌, ==_iff, ==_refl, arith,
  Bool-cases,
}
use go_perl.Threads.{
  tframe_slots, slot_at, Phase, idle, first, second, claiming, third, holding, aborted, put,
  next_round, move, looks_at, swap,
}

-- The slot of round `o` has the id of another thread.
abbrev pub Other : (ℕ → ℕ) → ℕ → ℕ → Type 0
Other tids t o = (tids (slot_at t o) ≢ 0) × (tids (slot_at t o) ≢ t)

abbrev pub Seen : (ℕ → ℕ) → ℕ → ℕ → Type 0
Seen tids t i = (o : ℕ) → o < i → Other tids t o

-- Each id stands where its thread found the first slot that was free.
abbrev pub Placed : (ℕ → ℕ) → Type 0
Placed tids = (j : ℕ) → tids j ≢ 0 → (o : ℕ) × (j ≡ slot_at (tids j) o) × Seen tids (tids j) o

-- What a thread knows in its phase.
unfoldable pub Knows : (ℕ → ℕ) → ℕ → Phase → Type 0
Knows tids t idle = Unit
Knows tids t (first i) = Seen tids t i
Knows tids t (second i) = Seen tids t i × (tids (slot_at t i) ≢ t)
Knows tids t (claiming i) = Seen tids t i × (tids (slot_at t i) ≢ t)
Knows tids t (third i) = Seen tids t i × (tids (slot_at t i) ≢ 0)
Knows tids t (holding k) = tids k ≡ t
Knows tids t aborted = Seen tids t tframe_slots

pub put_self : {A : Type 0} (k : ℕ) (v : A) (f : ℕ → A) → put k v f k ≡ v
unfolding put
put_self k v f = rw (==_refl k) refl

pub put_other : {A : Type 0} (k : ℕ) (v : A) (f : ℕ → A) (x : ℕ) → x ≢ k → put k v f x ≡ f x
unfolding put
put_other k v f x n = let other : (x == k) ≡ false = ground arith in rw other refl

-- A store to a free slot keeps the ids that are there.
put_kept : (j u : ℕ) (f : ℕ → ℕ) (x : ℕ) → f j ≡ 0 → f x ≢ 0 → put j u f x ≡ f x
put_kept j u f x free full = put_other j u f x (λ e. full (ap f e ∙ free))

put-Other : (j u : ℕ) (f : ℕ → ℕ) (t o : ℕ) → f j ≡ 0 → Other f t o → Other (put j u f) t o
put-Other j u f t o free h =
    subst (λ v. (v ≢ 0) × (v ≢ t)) (sym (put_kept j u f (slot_at t o) free h.0)) h

put-Seen : (j u : ℕ) (f : ℕ → ℕ) (t i : ℕ) → f j ≡ 0 → Seen f t i → Seen (put j u f) t i
put-Seen j u f t i free h o less = put-Other j u f t o free (h o less)

-- The value of a slot behind a store, where it is not the thread's own id.
put_foreign : (j u : ℕ) (f : ℕ → ℕ) (t x : ℕ) → u ≢ t → f x ≢ t → put j u f x ≢ t
unfolding put
put_foreign j u f t x n m = elim (Bool-cases (x == j)) [ inl e ↦ rw e n | inr e ↦ rw e m ]

put-Knows :
    (j u : ℕ) (f : ℕ → ℕ) (t : ℕ) (p : Phase)
    → f j ≡ 0
    → t ≢ 0
    → u ≢ t
    → Knows f t p
    → Knows (put j u f) t p
unfolding Knows
put-Knows j u f t idle free nz n h = tt
put-Knows j u f t (first i) free nz n h = put-Seen j u f t i free h
put-Knows j u f t (second i) free nz n h =
    (put-Seen j u f t i free h.0, put_foreign j u f t (slot_at t i) n h.1)
put-Knows j u f t (claiming i) free nz n h =
    (put-Seen j u f t i free h.0, put_foreign j u f t (slot_at t i) n h.1)
put-Knows j u f t (third i) free nz n h = (
  put-Seen j u f t i free h.0,
  subst (λ v. v ≢ 0) (sym (put_kept j u f (slot_at t i) free h.1)) h.1,
)
put-Knows j u f t (holding k) free nz n h = put_kept j u f k free (λ z. nz (sym h ∙ z)) ∙ h
put-Knows j u f t aborted free nz n h = put-Seen j u f t tframe_slots free h

put-Placed :
    (u i : ℕ) (f : ℕ → ℕ)
    → f (slot_at u i) ≡ 0
    → Placed f
    → Seen f u i
    → Placed (put (slot_at u i) u f)
put-Placed u i f free placed seen j full = elim (Bool-cases (j == slot_at u i)) [
  | inl e ↦
      let at : j ≡ slot_at u i = (==_iff j (slot_at u i)).0 e in
      let new : put (slot_at u i) u f j ≡ u =
        ap (put (slot_at u i) u f) at ∙ put_self (slot_at u i) u f in
      (
        i,
        at ∙ ap (λ t. slot_at t i) (sym new),
        subst (λ t. Seen (put (slot_at u i) u f) t i) (sym new)
            (put-Seen (slot_at u i) u f u i free seen),
      )
  | inr e ↦
      let old : put (slot_at u i) u f j ≡ f j = put_other (slot_at u i) u f j (ground arith) in
      let (o, at, h) = placed j (λ z. full (old ∙ z)) in
      (
        o,
        at ∙ ap (λ t. slot_at t o) (sym old),
        subst (λ t. Seen (put (slot_at u i) u f) t o) (sym old)
            (put-Seen (slot_at u i) u f (f j) o free h),
      )
]

Seen-suc : (f : ℕ → ℕ) (t i : ℕ) → Seen f t i → Other f t i → Seen f t (suc i)
Seen-suc f t i seen here o less = elim (Bool-cases (o == i)) [
  | inl e ↦ subst (Other f t) (sym ((==_iff o i).0 e)) here
  | inr e ↦ seen o (ground arith)
]

next_round-Knows : (f : ℕ → ℕ) (t i : ℕ) → Seen f t i → Other f t i → Knows f t (next_round i)
unfolding Knows next_round
next_round-Knows f t i seen here = elim (Bool-cases (suc i == tframe_slots)) [
  | inl e ↦ rw e (subst (Seen f t) ((==_iff (suc i) tframe_slots).0 e) (Seen-suc f t i seen here))
  | inr e ↦ rw e (Seen-suc f t i seen here)
]

-- The thread that makes the step knows what its next phase needs.
pub move-Knows :
    (f : ℕ → ℕ) (u : ℕ) (p : Phase)
    → u ≢ 0
    → Knows f u p
    → let v = f (looks_at u p) in Knows (swap u v p f) u (move u v p)
unfolding Knows move swap looks_at
move-Knows f u idle nz h = λ o less. absurd (omega arith)
move-Knows f u (first i) nz h = elim (Bool-cases (f (slot_at u i) == u)) [
  | inl e ↦ rw e ((==_iff (f (slot_at u i)) u).0 e)
  | inr e ↦ rw e (h, ground arith)
]
move-Knows f u (second i) nz h = elim (Bool-cases (f (slot_at u i) == 0)) [
  | inl e ↦ rw e h
  | inr e ↦ rw e (next_round-Knows f u i h.0 (ground arith, h.1))
]
move-Knows f u (claiming i) nz h = elim (Bool-cases (f (slot_at u i) == 0)) [
  | inl e ↦ rw e (put_self (slot_at u i) u f)
  | inr e ↦ rw e (h.0, ground arith)
]
move-Knows f u (third i) nz h = elim (Bool-cases (f (slot_at u i) == u)) [
  | inl e ↦ rw e ((==_iff (f (slot_at u i)) u).0 e)
  | inr e ↦ rw e (next_round-Knows f u i h.0 (h.1, ground arith))
]
move-Knows f u (holding k) nz h = tt
move-Knows f u aborted nz h = h

-- The other threads keep what they know.
pub swap-Knows :
    (f : ℕ → ℕ) (u t : ℕ) (p q : Phase)
    → t ≢ 0
    → u ≢ t
    → Knows f t q
    → Knows (swap u (f (looks_at u p)) p f) t q
unfolding swap looks_at
swap-Knows f u t (claiming i) q nz n h = elim (Bool-cases (f (slot_at u i) == 0)) [
  | inl e ↦ rw e (put-Knows (slot_at u i) u f t q ((==_iff (f (slot_at u i)) 0).0 e) nz n h)
  | inr e ↦ rw e h
]
swap-Knows f u t idle q nz n h = h
swap-Knows f u t (first i) q nz n h = h
swap-Knows f u t (second i) q nz n h = h
swap-Knows f u t (third i) q nz n h = h
swap-Knows f u t (holding k) q nz n h = h
swap-Knows f u t aborted q nz n h = h

pub swap-Placed :
    (f : ℕ → ℕ) (u : ℕ) (p : Phase)
    → Placed f
    → Knows f u p
    → Placed (swap u (f (looks_at u p)) p f)
unfolding swap looks_at Knows
swap-Placed f u (claiming i) placed h = elim (Bool-cases (f (slot_at u i) == 0)) [
  | inl e ↦ rw e (put-Placed u i f ((==_iff (f (slot_at u i)) 0).0 e) placed h.0)
  | inr e ↦ rw e placed
]
swap-Placed f u idle placed h = placed
swap-Placed f u (first i) placed h = placed
swap-Placed f u (second i) placed h = placed
swap-Placed f u (third i) placed h = placed
swap-Placed f u (holding k) placed h = placed
swap-Placed f u aborted placed h = placed
