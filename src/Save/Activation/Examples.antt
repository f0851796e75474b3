-- ===== src/Save/Activation/Examples.antt =====
-- The activation protocol at a concrete nested call.
use go_perl.Prelude.{◌^◌, ◌≡◌, refl, some, [], ◌∷◌, arith}
use go_perl.Save.{store, store_ptr, Host, hostsave_ptr, hostsave_i32, act, run}
use go_perl.Save.Examples.{zeroes, idle, pointer}
use go_perl.Save.Activation.{Activation, xs_enter, xs_leave, xs_croaked, arm}
use go_perl.Save.Activation.Leave.{left, xs_leave-xs_enter, xs_croaked-xs_enter}

-- An XSUB of the frame 100, called while the frame 50 is current.
abbrev outer : Activation
outer = record { host = idle; cur_frame = 50; xs_depth = 1 }

abbrev armed : Activation
armed = record {
  host = record idle {
    memory = arm 100 900 0 50 zeroes;
    saves =
        record { loc = 104; val = 0; scope = 2 ^ 31; width = 0 }
        ∷ record { loc = 128; val = 0; scope = 2 ^ 31; width = 0 }
        ∷ record { loc = 111; val = 0; scope = 2 ^ 31; width = 4 }
        ∷ [];
  };
  cur_frame = 100;
  xs_depth = 2;
}

enters : xs_enter 100 900 outer ≡ some armed
unfolding xs_enter hostsave_i32 hostsave_ptr
enters = refl

abbrev body : Host
body = record (armed.host) {
  memory = store armed.host.memory 11 5;
  saves = record { loc = 10; val = 0; scope = 2 ^ 31; width = 0 } ∷ armed.host.saves;
}

runs : run pointer armed.host ≡ some body
unfolding run act hostsave_ptr arm store_ptr store
runs = refl

xs_leave-xs_enter_example : xs_leave 100 (record armed { host = body }) ≡ left outer
xs_leave-xs_enter_example =
    xs_leave-xs_enter 100 900 outer armed pointer body (λ x. omega arith) (omega arith) enters runs
      (refl, tt)
      (
        (tt, ((λ e. omega arith), tt)),
        (tt, ((λ e. omega arith), tt)),
        (tt, ((λ e. omega arith), tt)),
      )

xs_croaked-xs_enter_example :
    let r = xs_croaked 100 (record armed { host = body }) in
    (r.cur_frame ≡ 0) × (r.host.saves ≡ []) × (r.xs_depth ≡ 1)
xs_croaked-xs_enter_example =
    xs_croaked-xs_enter 100 900 outer armed pointer body (λ x. omega arith) refl refl enters runs
      (refl, tt) (tt, ((λ e. omega arith), tt))
