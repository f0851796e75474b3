-- ===== src/Format/Literal.antt =====
-- `goperl_vfmt` at plain text, and at plain text around the string of an SV.
use go_perl.Prelude.{
  ℕ, ◌<◌, ◌≤◌, ◌≡◌, ◌≢◌, refl, sym, ap, ◌∙◌, false, some, List, [], ◌∷◌, ◌++◌, ◌==◌, length, arith,
  All,
}
use go_perl.Bridge.{World, sv_pv, emit}
use go_perl.Flush.{flush}
use go_perl.Format.{
  Position, Printf, Vararg, text, round, round_at, directive, sv_directive, vfmt, scalar, svf,
  bytes_of,
}
use go_perl.Format.Render.{Renders, ends, appends}
use go_perl.Format.Buffer.{vfmt-Formatted, stored}

abbrev pub IsLiteral : ℕ → Type 0
IsLiteral c = c ≢ b'%'

abbrev at : List ℕ → List Vararg → World → Position
at fmt va w = record { fmt = fmt; va = va; world = w }

round-literal :
    (e : Printf) (c : ℕ) (s : List ℕ) (va : List Vararg) (w : World)
    → IsLiteral c
    → round e (at (c ∷ s) va w) ≡ text (c ∷ []) (at s va w)
unfolding round round_at
round-literal e c s va w h = let other : (c == b'%') ≡ false = ground arith in rw other refl

Renders-literal :
    (e : Printf) (pre rest : List ℕ) (va : List Vararg) (w : World) (u : List ℕ) (w' : World)
    → All IsLiteral pre
    → Renders e (at rest va w) u w'
    → Renders e (at (pre ++ rest) va w) (pre ++ u) w'
Renders-literal e [] rest va w u w' h r = r
Renders-literal e (c ∷ pre) rest va w u w' h r =
    appends (round-literal e c (pre ++ rest) va w h.0) (Renders-literal e pre rest va w u w' h.1 r)

-- The state after the string of an SV was read.
abbrev pub read_sv : ℕ → World → World
read_sv sv w = record (flush w) { log = emit (sv_pv sv) (flush w).log }

abbrev pub text_of : Printf → ℕ → World → List ℕ
text_of e sv w = bytes_of (e.sv_text (flush w).log sv)

round-svf :
    (e : Printf) (sv : ℕ) (post : List ℕ) (va : List Vararg) (w : World)
    → sv ≢ 0
    → round e (at (b'%' ∷ (svf ++ post)) (scalar sv ∷ va) w)
      ≡ text (text_of e sv w) (at post va (read_sv sv w))
unfolding round round_at directive sv_directive
round-svf e sv post va w h = let nonzero : (sv == 0) ≡ false = ground arith in rw nonzero refl

Renders-plain :
    (e : Printf) (s : List ℕ) (va : List Vararg) (w : World)
    → All IsLiteral s
    → Renders e (at s va w) s w
unfolding round round_at
Renders-plain e [] va w h = ends refl
Renders-plain e (c ∷ s) va w h = appends (round-literal e c s va w h.0) (Renders-plain e s va w h.1)

text-eq : {t t' : List ℕ} {p p' : Position} → text t p ≡ text t' p' → (t ≡ t') × (p ≡ p')
text-eq h = (cc, cc)

Renders-unique :
    (e : Printf) {p p' : Position} {t t' : List ℕ} {w w' : World}
    → p ≡ p'
    → Renders e p t w
    → Renders e p' t' w'
    → (t ≡ t') × (w ≡ w')
Renders-unique e q (ends s) (ends s') = (refl, cc)
Renders-unique e q (ends s) (appends s' r) = absurd cc
Renders-unique e q (appends s r) (ends s') = absurd cc
Renders-unique e q (appends s r) (appends s' r') =
    let h = text-eq (sym s ∙ ap (round e) q ∙ s') in let h' = Renders-unique e h.1 r r' in (cc, cc)

vfmt-Renders :
    (e : Printf) (dst : List ℕ) (size : ℕ) (p : Position) (t : List ℕ) (w : World)
    → 0 < size
    → size ≤ length dst
    → Renders e p t w
    → vfmt e dst size p ≡ some (stored size dst t, w)
vfmt-Renders e dst size p t w h l r =
    let f = vfmt-Formatted e dst size p h l in
    let same = Renders-unique e refl f.renders r in f.result ∙ cc

-- A format of plain text with one SVf in it, at an SV that is not null: the pending writes are
-- flushed, the interpreter is asked for the string of that SV, once, and the buffer holds the
-- plain text with the string in the place of the SVf, cut so that a NUL fits.
pub vfmt-svf :
    (e : Printf) (dst : List ℕ) (size : ℕ) (pre post : List ℕ) (sv : ℕ) (va : List Vararg)
    (w : World)
    → 0 < size
    → size ≤ length dst
    → All IsLiteral pre
    → All IsLiteral post
    → sv ≢ 0
    → vfmt e dst size (record { fmt = pre ++ b'%' ∷ (svf ++ post); va = scalar sv ∷ va; world = w })
      ≡ some (stored size dst (pre ++ (text_of e sv w ++ post)), read_sv sv w)
vfmt-svf e dst size pre post sv va w h l lit lit' nonzero =
    let read =
      appends (round-svf e sv post va w nonzero) (Renders-plain e post va (read_sv sv w) lit') in
    vfmt-Renders e dst size (at (pre ++ b'%' ∷ (svf ++ post)) (scalar sv ∷ va) w)
      (pre ++ (text_of e sv w ++ post)) (read_sv sv w) h l
      (Renders-literal e pre (b'%' ∷ (svf ++ post)) (scalar sv ∷ va) w (text_of e sv w ++ post)
        (read_sv sv w) lit read)
