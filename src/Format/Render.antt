-- ===== src/Format/Render.antt =====
-- What `goperl_vfmt` leaves in its buffer: the text that the rounds of its loop make up, cut to
-- the buffer's size, and a NUL.
use mathlib.Core.List.{append_assoc}
use go_perl.Prelude.{
  ℕ, zero, suc, ◌+◌, ◌<◌, ◌≤◌, ◌≡◌, refl, sym, ap, ◌∙◌, some, List, [], ◌∷◌, ◌++◌, ltb_of_le,
  lt→ltb, length, length-append, set, take, drop, arith,
}
use go_perl.Bridge.{World}
use go_perl.Format.{Position, Printf, Round, text, stopped, Out, round, putc, puts, vfmt_loop}
use go_perl.Format.Progress.{Shorter, round-Shorter}

-- From `p` on the rounds make up the text `t`, and leave the state `w`.
pub data Renders (e : Printf) : Position → List ℕ → World → Type 0 where
  ends : {p : Position} → round e p ≡ stopped → Renders e p [] p.world
  appends :
      {p p' : Position} {t u : List ℕ} {w : World}
      → round e p ≡ text t p'
      → Renders e p' u w
      → Renders e p (t ++ u) w

puts-append :
    (size : ℕ) (t u : List ℕ) (out : Out) → puts size (t ++ u) out ≡ puts size u (puts size t out)
unfolding puts
puts-append size [] u out = refl
puts-append size (c ∷ t) u out = puts-append size t u (putc size c out)

-- The loop comes to an end, with the whole text put into the buffer.
pub record Rendered (e : Printf) (p : Position) (fuel size : ℕ) : Type 0 where
  pub whole : List ℕ
  pub world : World
  pub renders : Renders e p whole world
  pub looped : (out : Out) → vfmt_loop e size fuel p out ≡ some (puts size whole out, world)

vfmt_loop-text :
    (e : Printf) (size fuel : ℕ) (p p' : Position) (t : List ℕ) (out : Out)
    → round e p ≡ text t p'
    → vfmt_loop e size (suc fuel) p out ≡ vfmt_loop e size fuel p' (puts size t out)
unfolding vfmt_loop
vfmt_loop-text e size fuel p p' t out is = rw (is, vfmt_loop) refl

vfmt_round :
    (e : Printf) (size fuel : ℕ) (p : Position) (r : Round)
    → round e p ≡ r
    → Shorter r (length p.fmt)
    → length p.fmt < suc fuel
    → ((p' : Position) → length p'.fmt < fuel → Rendered e p' fuel size)
    → Rendered e p (suc fuel) size
unfolding vfmt_loop
vfmt_round e size fuel p stopped is s h rest = record {
  whole = [];
  world = p.world;
  renders = ends is;
  looped = λ out. rw (is, vfmt_loop) refl;
}
vfmt_round e size fuel p (text t p') is s h rest =
    let r = rest p' (omega arith) in
    record {
      whole = t ++ r.whole;
      world = r.world;
      renders = appends is r.renders;
      looped = λ out.
          vfmt_loop-text e size fuel p p' t out is
          ∙ r.looped (puts size t out)
          ∙ ap (λ o. some (o, r.world)) (sym (puts-append size t r.whole out));
    }

pub vfmt_loop_total :
    (e : Printf) (size fuel : ℕ) (p : Position) → length p.fmt < fuel → Rendered e p fuel size
vfmt_loop_total e size zero p h = absurd (omega arith)
vfmt_loop_total e size (suc fuel) p h =
    vfmt_round e size fuel p (round e p) refl (round-Shorter e p) h (vfmt_loop_total e size fuel)

-- The loop at a full buffer only counts.
puts-full :
    (size : ℕ) (t dst : List ℕ) (o : ℕ)
    → size ≤ o + 1
    → puts size t (record { dst = dst; o = o }) ≡ record { dst = dst; o = o + length t }
unfolding puts putc
puts-full size [] dst o h = ap (λ n. record { dst = dst; o = n }) (omega arith)
puts-full size (c ∷ t) dst o h = rw (ltb_of_le (o + 1) size h) (
    puts-full size t dst (o + 1) (omega arith)
    ∙ ap (λ n. record { dst = dst; o = n }) (omega arith))

pub set-append :
    (pre rest : List ℕ) (x v : ℕ) → set (pre ++ x ∷ rest) (length pre) v ≡ pre ++ v ∷ rest
set-append [] rest x v = refl
set-append (p ∷ pre) rest x v = ap (λ t. p ∷ t) (set-append pre rest x v)

puts_at :
    (t : List ℕ) {size size' o o' : ℕ} {dst dst' : List ℕ}
    → size ≡ size'
    → o ≡ o'
    → dst ≡ dst'
    → puts size t (record { dst = dst; o = o }) ≡ puts size' t (record { dst = dst'; o = o' })
puts_at t s o d = cc

pub Out_eq :
    {o o' : ℕ} {dst dst' : List ℕ}
    → dst ≡ dst'
    → o ≡ o'
    → ◌≡◌ {A = Out} (record { dst = dst; o = o }) (record { dst = dst'; o = o' })
Out_eq d o = cc

-- Behind `pre`, with `room` bytes before the last one, the buffer takes the first `room` bytes.
pub puts_lem :
    (t pre rest : List ℕ) (room : ℕ)
    → room < length rest
    → puts (suc (length pre + room)) t (record { dst = pre ++ rest; o = length pre }) ≡ record {
      dst = pre ++ (take room t ++ drop (length (take room t)) rest);
      o = length pre + length t;
    }
unfolding puts putc
puts_lem [] pre rest zero h = ap (λ n. record { dst = pre ++ rest; o = n }) (omega arith)
puts_lem [] pre rest (suc room) h = ap (λ n. record { dst = pre ++ rest; o = n }) (omega arith)
puts_lem (c ∷ t) pre rest zero h =
    puts-full (suc (length pre + 0)) (c ∷ t) (pre ++ rest) (length pre) (omega arith)
puts_lem (c ∷ t) pre [] (suc room) h = absurd (omega arith)
puts_lem (c ∷ t) pre (r ∷ rest) (suc room) h =
    let grown = pre ++ (c ∷ []) in
    let at : length grown ≡ length pre + 1 = length-append pre (c ∷ []) in
    let size : suc (length pre + suc room) ≡ suc (length grown + room) = omega arith in
    let there = take room t ++ drop (length (take room t)) rest in
    rw
      (lt→ltb (length pre + 1) (suc (length pre + suc room)) (omega arith), set-append pre rest r c)
      (puts_at t size (sym at) (sym (append_assoc pre (c ∷ []) rest))
        ∙ puts_lem t grown rest room (omega arith)
        ∙ Out_eq (append_assoc pre (c ∷ []) there) (omega arith))
