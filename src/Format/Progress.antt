-- ===== src/Format/Progress.antt =====
-- Every round of `goperl_vfmt` moves on in the format, and the conversion that it copies stays
-- inside its buffer.
use go_perl.Prelude.{
  ℕ, zero, suc, ◌+◌, ◌<◌, ◌≤◌, Bool, List, [], ◌∷◌, ◌++◌, length, length-append, length-drop, take,
  drop, arith, ◌&&◌, ◌%◌, ◌^◌, ltb, inl, inr, Bool-cases,
}
use go_perl.Format.{
  Position, Printf, Round, text, stopped, Spec, LengthMod, scan, star_or_digits, precision, copy,
  length_modifier, parse_spec, finish, round_at, va_scalar, Vararg, conversion, directive, round,
  sv_directive, utf8_directive, is_flag, is_decimal,
}

-- What is left of the format, and the length of the copy.
abbrev Grown : List ℕ × List ℕ → ℕ → ℕ → Type 0
Grown r bound left = (length r.0 ≤ bound) × (length r.1 ≤ left)

scan-Grown :
    (test : ℕ → Bool) (limit : ℕ) (spec s : List ℕ) (bound : ℕ)
    → length spec ≤ bound
    → limit ≤ bound
    → Grown (scan test limit spec s) bound (length s)
unfolding scan
scan-Grown test limit spec [] bound h l = (h, omega arith)
scan-Grown test limit spec (c ∷ s) bound h l =
    elim (Bool-cases (test c && ltb (length spec) limit)) [
      | inl e ↦
          let longer : length (spec ++ (c ∷ [])) ≤ bound =
            ground (arith, length-append spec (c ∷ [])) in
          rw e (ground (arith, scan-Grown test limit (spec ++ (c ∷ [])) s bound longer l))
      | inr e ↦ rw e (h, omega arith)
    ]

-- A limit on the number `snprintf` prints: at most ten digits and a sign at "%d".
abbrev pub ShortDecimal : Printf → Type 0
ShortDecimal e = (n : ℕ) → length (e.decimal n) ≤ 11

star_or_digits-fmt :
    (e : Printf) (limit : ℕ) (s : Spec) → length (star_or_digits e limit s).fmt ≤ length s.fmt
unfolding star_or_digits
star_or_digits-fmt e limit s = ground (
  arith,
  length-drop 1 s.fmt,
  scan-Grown is_decimal limit s.spec s.fmt (length s.spec + limit) (omega arith) (omega arith),
)

star_or_digits-spec :
    (e : Printf) (limit bound : ℕ) (s : Spec)
    → ShortDecimal e
    → length s.spec + 11 ≤ bound
    → limit ≤ bound
    → length (star_or_digits e limit s).spec ≤ bound
unfolding star_or_digits
star_or_digits-spec e limit bound s short h l = ground (
  arith,
  length-append s.spec (e.decimal ((va_scalar s.va).0 % 2 ^ 32)),
  short ((va_scalar s.va).0 % 2 ^ 32),
  scan-Grown is_decimal limit s.spec s.fmt bound (omega arith) l,
)

precision-fmt : (e : Printf) (s : Spec) → length (precision e s).fmt ≤ length s.fmt
unfolding precision
precision-fmt e s = ground (
  arith,
  length-drop 1 s.fmt,
  star_or_digits-fmt e 24 (record s { spec = s.spec ++ (b'.' ∷ []); fmt = drop 1 s.fmt }),
)

precision-spec :
    (e : Printf) (s : Spec) → ShortDecimal e → length s.spec ≤ 19 → length (precision e s).spec ≤ 31
unfolding precision
precision-spec e s short h = ground (
  arith,
  length-append s.spec (b'.' ∷ []),
  star_or_digits-spec e 24 31 (record s { spec = s.spec ++ (b'.' ∷ []); fmt = drop 1 s.fmt }) short,
)

take-bound : {A : Type 0} (n : ℕ) (xs : List A) → length (take n xs) ≤ n
take-bound zero xs = omega arith
take-bound (suc n) [] = omega arith
take-bound (suc n) (x ∷ xs) = omega (arith, take-bound n xs)

length_modifier-Grown :
    (s : Spec)
    → (length (length_modifier s).1.fmt ≤ length s.fmt)
      × (length (length_modifier s).1.spec ≤ length s.spec + 2)
unfolding length_modifier copy
length_modifier-Grown s = ground (
  arith,
  length-drop 1 s.fmt,
  length-drop 2 s.fmt,
  length-append s.spec (take 1 s.fmt),
  length-append s.spec (take 2 s.fmt),
  take-bound 1 s.fmt,
  take-bound 2 s.fmt,
)

parse_spec-fmt : (e : Printf) (p : Position) → length (parse_spec e p).1.fmt ≤ length p.fmt
unfolding parse_spec
parse_spec-fmt e p =
    let (spec, fmt) = scan is_flag 8 (b'%' ∷ []) p.fmt in
    let flags : Spec = record { spec = spec; fmt = fmt; va = p.va } in
    omega (
      arith,
      length_modifier-Grown (precision e (star_or_digits e 14 flags)),
      precision-fmt e (star_or_digits e 14 flags),
      star_or_digits-fmt e 14 flags,
      scan-Grown is_flag 8 (b'%' ∷ []) p.fmt 8 (omega arith) (omega arith),
    )

-- The copy of a conversion, with the conversion character and the NUL that follow it, takes at
-- most 35 of the 48 bytes of `spec`, whatever the format and the arguments, if "%d" prints at most
-- eleven bytes.
pub parse_spec-bound :
    (e : Printf) (p : Position) → ShortDecimal e → length (parse_spec e p).1.spec + 2 ≤ 35
unfolding parse_spec
parse_spec-bound e p short =
    let (spec, fmt) = scan is_flag 8 (b'%' ∷ []) p.fmt in
    let flags : Spec = record { spec = spec; fmt = fmt; va = p.va } in
    let grown = scan-Grown is_flag 8 (b'%' ∷ []) p.fmt 8 (omega arith) (omega arith) in
    let width = star_or_digits-spec e 14 19 flags short (omega arith) (omega arith) in
    omega (
      arith,
      length_modifier-Grown (precision e (star_or_digits e 14 flags)),
      precision-spec e (star_or_digits e 14 flags) short width,
    )

-- A round ends with less than `n` bytes of the format to go.
abbrev pub Shorter : Round → ℕ → Type 0
Shorter (text t p) n = length p.fmt < n
Shorter stopped n = Unit

finish-Shorter :
    (e : Printf) (p : Position) (lmod : LengthMod) (spec : List ℕ) (va : List Vararg) (fmt : List ℕ)
    (n : ℕ)
    → length fmt ≤ n
    → Shorter (finish e p lmod spec va fmt) (suc n)
unfolding finish
finish-Shorter e p lmod spec va [] n h = tt
finish-Shorter e p lmod spec va (conv ∷ rest) n h = omega arith

conversion-Shorter : (e : Printf) (p : Position) → Shorter (conversion e p) (suc (length p.fmt))
unfolding conversion
conversion-Shorter e p =
    let (lmod, s) = parse_spec e p in
    finish-Shorter e p lmod s.spec s.va s.fmt (length p.fmt) (parse_spec-fmt e p)

sv_directive-Shorter : (e : Printf) (p : Position) → Shorter (sv_directive e p) (suc (length p.fmt))
unfolding sv_directive
sv_directive-Shorter e p = ground (arith, length-drop 5 p.fmt)

utf8_directive-Shorter : (p : Position) → Shorter (utf8_directive p) (suc (length p.fmt))
unfolding utf8_directive
utf8_directive-Shorter p = omega (arith, length-drop 5 p.fmt)

directive-Shorter : (e : Printf) (p : Position) → Shorter (directive e p) (suc (length p.fmt))
unfolding directive
directive-Shorter e p = ground (
  arith,
  length-drop 1 p.fmt,
  sv_directive-Shorter e p,
  utf8_directive-Shorter p,
  conversion-Shorter e p,
)

round_at-Shorter :
    (e : Printf) (p : Position) (fmt : List ℕ) → Shorter (round_at e p fmt) (length fmt)
unfolding round_at
round_at-Shorter e p [] = tt
round_at-Shorter e p (c ∷ s) = ground (arith, directive-Shorter e (record p { fmt = s }))

pub round-Shorter : (e : Printf) (p : Position) → Shorter (round e p) (length p.fmt)
unfolding round
round-Shorter e p = round_at-Shorter e p p.fmt
