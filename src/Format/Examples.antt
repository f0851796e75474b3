-- ===== src/Format/Examples.antt =====
-- The formatter at concrete formats.
use go_perl.Prelude.{ℕ, suc, ◌≡◌, arith, some, List, [], ◌∷◌, ◌++◌}
use go_perl.Bridge.{World, Guest}
use go_perl.Save.Examples.{quiet}
use go_perl.Marks.Examples.{zeroes, length-zeroes}
use go_perl.Format.{Printf, Position, scalar, svf, vfmt, CroakFrame, croakf, jumped}
use go_perl.Format.Render.{Renders}
use go_perl.Format.Buffer.{Formatted, vfmt-Formatted, stored, croakf_lem}
use go_perl.Format.Literal.{vfmt-svf, read_sv}

-- A library that prints a number as "7" and an SV as "xy".
abbrev sevens : Printf
sevens = record {
  decimal = λ n. b'7' ∷ [];
  number = λ spec type n. b'7' ∷ [];
  string = λ spec s. s;
  sv_text = λ log tok. some (b'x' ∷ b'y' ∷ []);
}

-- "a%-*d"
abbrev starred : Position
starred = record {
  fmt = b'a' ∷ b'%' ∷ b'-' ∷ b'*' ∷ b'd' ∷ [];
  va = scalar 7 ∷ scalar 9 ∷ [];
  world = quiet;
}

-- "-*d", behind the "%".
abbrev width : Position
width = record starred { fmt = b'-' ∷ b'*' ∷ b'd' ∷ [] }

vfmt-Formatted_example : Formatted sevens starred 3 (1 ∷ 2 ∷ 3 ∷ 4 ∷ [])
vfmt-Formatted_example =
    vfmt-Formatted sevens (1 ∷ 2 ∷ 3 ∷ 4 ∷ []) 3 starred (omega arith) (omega arith)

-- "a" SVf "b" in five bytes: all four characters and the NUL.
vfmt-svf_example :
    vfmt sevens
      (9 ∷ 9 ∷ 9 ∷ 9 ∷ 9 ∷ 9 ∷ [])
      5
      (record { fmt = b'a' ∷ b'%' ∷ (svf ++ (b'b' ∷ [])); va = scalar 40 ∷ []; world = quiet })
    ≡ some (b'a' ∷ b'x' ∷ b'y' ∷ b'b' ∷ 0 ∷ 9 ∷ [], read_sv 40 quiet)
vfmt-svf_example =
    vfmt-svf sevens (9 ∷ 9 ∷ 9 ∷ 9 ∷ 9 ∷ 9 ∷ []) (suc 4) (b'a' ∷ []) (b'b' ∷ []) 40 [] quiet
      (omega arith) (omega arith) (omega arith, tt) (omega arith, tt) (omega arith)

abbrev silent : Guest
silent = record { answer = λ log call. 0 }

abbrev armed : CroakFrame
armed = record { jb = 1; failed = 0; err = zeroes 512 }

croakf_lem_example :
    (t : List ℕ) × (w : World) × Renders sevens starred t w
    × (let f' : CroakFrame = record armed { failed = 1; err = stored 512 armed.err t } in
        croakf sevens armed starred ≡ some (jumped f' w))
croakf_lem_example = croakf_lem sevens armed starred (length-zeroes 512)
