-- ===== src/Overload/Examples.antt =====
-- An overloaded object, 42, which stands for the plain one, 40.
use go_perl.Prelude.{ℕ, zero, suc, ◌<◌, ◌≡◌, refl, some, ◌-◌, arith}
use go_perl.Bridge.{Guest, Call, xs_op, World}
use go_perl.Bridge.Op.{sv_amagic, amagic_call, sv_rv}
use go_perl.Save.Examples.{quiet}
use go_perl.Overload.{amagic_deref_call}
use go_perl.Overload.Follow.{Objects, Goes, plain, ended, follow, amagic_deref_call-Ends}

abbrev nested : Objects
nested = record { overloaded = λ ref. ref - 40; result = λ ref. 40; target = λ ref. ref }

abbrev reply : Call → ℕ
reply (xs_op sv_amagic ref b s) = ref - 40
reply (xs_op amagic_call a b s) = 40
reply (xs_op sv_rv ref b s) = ref
reply call = 0

abbrev objects : Guest
objects = record { answer = λ log call. reply call }

first_round : (i : ℕ) → i < 1 → Goes nested (follow nested i 42)
first_round zero less = record {
  overloaded = λ e. omega arith;
  real = λ e. omega arith;
  reference = λ e. omega arith;
  moves = λ e. omega arith;
}
first_round (suc i) less = absurd (omega arith)

amagic_deref_call-Ends_example :
    (w : World) × (amagic_deref_call objects 7 5 42 quiet ≡ some (ended (some 40) w))
amagic_deref_call-Ends_example =
    amagic_deref_call-Ends objects 7 nested 1 5 42 (some 40) quiet
      (record { overloaded = λ log ref. refl; result = λ log ref. refl; target = λ log ref. refl })
      first_round (plain 40 refl) (omega arith)
