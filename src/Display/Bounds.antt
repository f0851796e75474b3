-- ===== src/Display/Bounds.antt =====
-- What is displayed, and that it fits the buffer.
use mathlib.Core.List.{append-nil, append_assoc}
use go_perl.Prelude.{
  ℕ, suc, ◌+◌, ◌<◌, ◌≤◌, ◌≡◌, ◌⊎◌, refl, sym, ap, ◌∙◌, inl, inr, ◌&&◌, ◌||◌, List, [], ◌∷◌, ◌++◌,
  ltb, leb, ◌==◌, length, take, Bool-cases, arith, length-append,
}
use go_perl.Display.{escape, out_limit, dots, display_from, display}

pub escapes : List ℕ → List ℕ
escapes [] = []
escapes (c ∷ s) = escape c ++ escapes s

-- Why the loop ended after `k` bytes, `shown` bytes in: all bytes, `pvlim` bytes, or a full buffer.
abbrev pub Ended : ℕ → ℕ → List ℕ → ℕ → List ℕ → List ℕ → Type 0
Ended pvlim shown s k text tail =
    ((k ≡ length s) × (tail ≡ []))
    ⊎ (((shown + k ≡ pvlim) × (k < length s) × (tail ≡ dots))
        ⊎ ((out_limit ≤ length text) × (k < length s) × (tail ≡ [])))

abbrev pub Displayed : ℕ → ℕ → List ℕ → List ℕ → List ℕ → Type 0
Displayed pvlim shown s out result =
    (k : ℕ) × (tail : List ℕ) × (result ≡ (out ++ escapes (take k s)) ++ tail)
    × Ended pvlim shown s k (out ++ escapes (take k s)) tail
    × ((k ≤ length s) × (shown + k ≤ pvlim))
    × (length result < 1024)

length-escape : (c : ℕ) → length (escape c) ≤ 6
unfolding escape
length-escape c = elim (Bool-cases (c == b'\\' || (c == b'"'))) [
  | inl e ↦ rw e (omega arith)
  | inr e ↦ elim (Bool-cases (leb 0x20 c && ltb c 0x7f)) [
    | inl h ↦ rw (e, h) (omega arith)
    | inr h ↦ rw (e, h) (omega arith)
  ]
]

Ended-suc :
    (pvlim shown c : ℕ) (s : List ℕ) (k : ℕ) (text : List ℕ) {text' : List ℕ} (tail : List ℕ)
    → text ≡ text'
    → Ended pvlim (suc shown) s k text tail
    → Ended pvlim shown (c ∷ s) (suc k) text' tail
Ended-suc pvlim shown c s k text tail same (inl (all, none)) = inl (ap suc all, none)
Ended-suc pvlim shown c s k text tail same (inr (inl (at, more, cut))) =
    inr (inl (omega arith, omega arith, cut))
Ended-suc pvlim shown c s k text tail same (inr (inr (full, more, none))) =
    inr (inr (omega (arith, ap length same), omega arith, none))

Displayed-suc :
    (pvlim shown c : ℕ) (s out : List ℕ) {result : List ℕ}
    → Displayed pvlim (suc shown) s (out ++ escape c) result
    → Displayed pvlim shown (c ∷ s) out result
unfolding escapes
Displayed-suc pvlim shown c s out (k, tail, is, end, within, fit) =
    let grouped = append_assoc out (escape c) (escapes (take k s)) in
    (
      suc k,
      tail,
      is ∙ ap (λ l. l ++ tail) grouped,
      Ended-suc pvlim shown c s k ((out ++ escape c) ++ escapes (take k s)) tail grouped end,
      (omega (arith, within.0), omega (arith, within.1)),
      fit,
    )

display_from-Displayed :
    (pvlim shown : ℕ) (s out : List ℕ)
    → shown ≤ pvlim
    → length out ≤ 1021
    → Displayed pvlim shown s out (display_from pvlim shown s out)
unfolding display_from escapes
display_from-Displayed pvlim shown [] out low fits = (
  0,
  [],
  sym (append-nil (out ++ []) ∙ append-nil out),
  inl (refl, refl),
  (omega arith, omega arith),
  omega arith,
)
display_from-Displayed pvlim shown (c ∷ s) out low fits =
    let here = sym (append-nil (out ++ []) ∙ append-nil out) in
    elim (Bool-cases (leb out_limit (length out))) [
      | inl e ↦
          let full : out_limit ≤ length (out ++ []) = ground (arith, length-append out []) in
          rw e (
            0,
            [],
            here,
            inr (inr (full, omega arith, refl)),
            (omega arith, omega arith),
            omega arith,
          )
      | inr e ↦ elim (Bool-cases (leb pvlim shown)) [
        | inl h ↦
            rw (e, h)
              (
                0,
                dots,
                ap (λ l. l ++ dots) (sym (append-nil out)),
                inr (inl (ground arith, omega arith, refl)),
                (omega arith, omega arith),
                ground (arith, length-append out dots),
              )
        | inr h ↦
            rw (e, h)
              (Displayed-suc pvlim shown c s out (
                display_from-Displayed pvlim (suc shown) s (out ++ escape c) (ground arith)
                  (ground (arith, length-append out (escape c), length-escape c))))
      ]
    ]

-- For any bytes and any limit, the text displayed is the escapes of the first `k` bytes with
-- nothing behind them, where these are all the bytes, or with "..." behind them, where `k` is the
-- limit and bytes are left, or with nothing, where bytes are left and the escapes have 1016 bytes
-- or more. It never has more than `pvlim` bytes escaped, and is shorter than the buffer of 1024
-- bytes.
pub display_lem :
    (pvlim : ℕ) (s : List ℕ)
    → (k : ℕ) × (tail : List ℕ) × (display pvlim s ≡ escapes (take k s) ++ tail)
      × Ended pvlim 0 s k (escapes (take k s)) tail
      × ((k ≤ length s) × (0 + k ≤ pvlim))
      × (length (display pvlim s) < 1024)
unfolding display
display_lem pvlim s = display_from-Displayed pvlim 0 s [] (omega arith) (omega arith)
