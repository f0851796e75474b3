-- ===== src/Format/Buffer.antt =====
-- `goperl_vfmt` and its callers at a whole format: they return, and what they write.
use go_perl.Prelude.{
  ℕ, zero, suc, ◌+◌, ◌-◌, ◌<◌, ◌≤◌, ◌≡◌, refl, ap, ◌∙◌, false, some, List, [], ◌∷◌, ◌++◌, ltb, ◌==◌,
  if◌then◌else◌, length, set, take, drop, arith, Bool-cases, inl, inr,
}
use go_perl.Bridge.{World, Guest}
use go_perl.Bridge.Op.{warn}
use go_perl.Flush.{do_op}
use go_perl.Format.{
  Position, Printf, Out, puts, vfmt_loop, terminate, vfmt, c_string, CroakFrame, jumped, aborted,
  raise, croakf, warnf,
}
use go_perl.Format.Render.{Renders, vfmt_loop_total, puts_lem, set-append, Out_eq}

-- A buffer that held `dst` with `t` in it, cut so that a NUL fits.
abbrev pub stored : ℕ → List ℕ → List ℕ → List ℕ
stored size dst t = let kept = take (size - 1) t in kept ++ 0 ∷ drop (suc (length kept)) dst

drop_head : (n : ℕ) (dst : List ℕ) → n < length dst → (c : ℕ) × (drop n dst ≡ c ∷ drop (suc n) dst)
drop_head n [] h = absurd (omega arith)
drop_head zero (c ∷ dst) h = (c, refl)
drop_head (suc n) (c ∷ dst) h = drop_head n dst (omega arith)

length-take : (n : ℕ) (t : List ℕ) → length (take n t) ≡ (if ltb (length t) n then length t else n)
length-take zero t = ground arith
length-take (suc n) [] = ground arith
length-take (suc n) (c ∷ t) = ground (arith, length-take n t)

terminate-stored :
    (size : ℕ) (t dst : List ℕ)
    → 0 < size
    → size ≤ length dst
    → let kept = take (size - 1) t in
      terminate size (record { dst = kept ++ drop (length kept) dst; o = length t })
      ≡ stored size dst t
unfolding terminate
terminate-stored size t dst h l =
    let kept = take (size - 1) t in
    let (c, split) = drop_head (length kept) dst (ground (arith, length-take (size - 1) t)) in
    let at : (if ltb (length t) size then length t else size - 1) ≡ length kept =
      ground (arith, length-take (size - 1) t) in
    ap (λ k. set (kept ++ drop (length kept) dst) k 0) at
    ∙ ap (λ d. set (kept ++ d) (length kept) 0) split
    ∙ set-append kept (drop (suc (length kept)) dst) c 0

puts-whole :
    (size : ℕ) (t dst : List ℕ)
    → 0 < size
    → size ≤ length dst
    → let kept = take (size - 1) t in
      puts size t (record { dst = dst; o = 0 })
      ≡ record { dst = kept ++ drop (length kept) dst; o = length t }
puts-whole size t dst h l =
    let grows : size ≡ suc (0 + (size - 1)) = omega arith in
    ap (λ k. puts k t (record { dst = dst; o = 0 })) grows
    ∙ puts_lem t [] dst (size - 1) (omega arith)
    ∙ Out_eq refl (omega arith)

vfmt-looped :
    (e : Printf) (dst : List ℕ) (size : ℕ) (p : Position) (out : Out) (w : World)
    → 0 < size
    → vfmt_loop e size (suc (length p.fmt)) p (record { dst = dst; o = 0 }) ≡ some (out, w)
    → vfmt e dst size p ≡ some (terminate size out, w)
unfolding vfmt
vfmt-looped e dst size p out w h is =
    let nonzero : (size == 0) ≡ false = ground arith in rw (nonzero, is) refl

-- What the formatter is to do at `p`: the text that the rounds make up, stored, and their state.
pub record Formatted (e : Printf) (p : Position) (size : ℕ) (dst : List ℕ) : Type 0 where
  pub whole : List ℕ
  pub world : World
  pub renders : Renders e p whole world
  pub result : vfmt e dst size p ≡ some (stored size dst whole, world)

-- In a buffer of at least `size` bytes, `size` not 0, the formatter comes to an end at every
-- format: the buffer then holds the text that the rounds make up, cut to `size - 1` bytes, a NUL
-- behind it, and what it held before in every byte behind the NUL.
pub vfmt-Formatted :
    (e : Printf) (dst : List ℕ) (size : ℕ) (p : Position)
    → 0 < size
    → size ≤ length dst
    → Formatted e p size dst
vfmt-Formatted e dst size p h l =
    let r = vfmt_loop_total e size (suc (length p.fmt)) p (omega arith) in
    let out = puts size r.whole (record { dst = dst; o = 0 }) in
    record {
      whole = r.whole;
      world = r.world;
      renders = r.renders;
      result =
          vfmt-looped e dst size p out r.world h (r.looped (record { dst = dst; o = 0 }))
          ∙ ap (λ b. some (terminate size b, r.world)) (puts-whole size r.whole dst h l)
          ∙ ap (λ b. some (b, r.world)) (terminate-stored size r.whole dst h l);
    }

c_string-stored : (kept slack : List ℕ) → c_string (kept ++ 0 ∷ slack) ≡ c_string kept
c_string-stored [] slack = refl
c_string-stored (c ∷ kept) slack = elim (Bool-cases (c == 0)) [
  | inl e ↦ rw e refl
  | inr e ↦ rw e (ap (λ s. c ∷ s) (c_string-stored kept slack))
]

warnf-said :
    (e : Printf) (g : Guest) (buf : List ℕ) (p : Position) (t : List ℕ) (w : World)
    → vfmt e buf 1024 p ≡ some (stored 1024 buf t, w)
    → warnf e g buf p ≡ some (do_op g warn 0 0 (c_string (take 1023 t)) w)
unfolding warnf
warnf-said e g buf p t w is =
    let kept = take 1023 t in
    rw (warnf, is)
      (ap (λ s. some (do_op g warn 0 0 s w)) (c_string-stored kept (drop (suc (length kept)) buf)))

-- `goperl_warnf`, for every format and whatever its local array held: the interpreter gets one
-- WARN, with the text that the rounds make up, cut to 1023 bytes and at its first NUL.
pub warnf_lem :
    (e : Printf) (g : Guest) (buf : List ℕ) (p : Position)
    → length buf ≡ 1024
    → (t : List ℕ) × (w : World) × Renders e p t w
      × (warnf e g buf p ≡ some (do_op g warn 0 0 (c_string (take 1023 t)) w))
warnf_lem e g buf p h =
    let r = vfmt-Formatted e buf 1024 p (omega arith) (omega arith) in
    (r.whole, r.world, r.renders, warnf-said e g buf p r.whole r.world r.result)

croakf-raised :
    (e : Printf) (f : CroakFrame) (p : Position) (t : List ℕ) (w : World)
    → vfmt e f.err 512 p ≡ some (stored 512 f.err t, w)
    → let f' : CroakFrame = record f { failed = 1; err = stored 512 f.err t } in
      croakf e f p ≡ some (if f.jb == 0 then aborted f' w else jumped f' w)
unfolding croakf raise
croakf-raised e f p t w is = rw (croakf, is) refl

-- `goperl_croakf`, for every format: the frame's error buffer gets the text that the rounds make
-- up, cut to 511 bytes, and the frame is marked failed; control goes to the armed entry, and only
-- where none is armed the process stops.
pub croakf_lem :
    (e : Printf) (f : CroakFrame) (p : Position)
    → length f.err ≡ 512
    → (t : List ℕ) × (w : World) × Renders e p t w
      × (let f' : CroakFrame = record f { failed = 1; err = stored 512 f.err t } in
          croakf e f p ≡ some (if f.jb == 0 then aborted f' w else jumped f' w))
croakf_lem e f p h =
    let r = vfmt-Formatted e f.err 512 p (omega arith) (omega arith) in
    (r.whole, r.world, r.renders, croakf-raised e f p r.whole r.world r.result)
