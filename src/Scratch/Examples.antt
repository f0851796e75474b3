-- ===== src/Scratch/Examples.antt =====
-- A destructor registered in an empty table.
use go_perl.Prelude.{ℕ, zero, suc, ◌≡◌, refl, ap, List, [], ◌∷◌, length, arith}
use go_perl.Bridge.{Guest}
use go_perl.Save.Examples.{quiet}
use go_perl.Scratch.{dtor_max, Dtor, no_dtor, Tables, save_destructor_x, ssnew_alloc}
use go_perl.Scratch.Blocks.{Allocated, ssnew_alloc-Allocated}
use go_perl.Scratch.Slots.{Saved, save_destructor_x_lem}

abbrev blank : ℕ → List Dtor
blank zero = []
blank (suc n) = no_dtor ∷ blank n

length-blank : (n : ℕ) → length (blank n) ≡ n
length-blank zero = refl
length-blank (suc n) = ap suc (length-blank n)

abbrev no_destructors : Tables
no_destructors = record {
  dtors = blank dtor_max;
  dtor_hint = 0;
  ssnew = [];
  ssnew_hint = 0;
  world = quiet;
}

abbrev silent : Guest
silent = record { answer = λ log call. 0 }

save_destructor_x_lem_example :
    Saved silent 700 9 no_destructors (save_destructor_x silent 700 9 no_destructors)
save_destructor_x_lem_example =
    save_destructor_x_lem silent 700 9 no_destructors (length-blank dtor_max) (λ e. omega arith)

abbrev no_blocks : ℕ → List ℕ
no_blocks zero = []
no_blocks (suc n) = 0 ∷ no_blocks n

length-no_blocks : (n : ℕ) → length (no_blocks n) ≡ n
length-no_blocks zero = refl
length-no_blocks (suc n) = ap suc (length-no_blocks n)

ssnew_alloc-Allocated_example :
    Allocated silent 700 65536
      (record no_destructors { ssnew = no_blocks dtor_max })
      (ssnew_alloc silent 700 65536 (record no_destructors { ssnew = no_blocks dtor_max }))
ssnew_alloc-Allocated_example =
    ssnew_alloc-Allocated silent 700 65536 (record no_destructors { ssnew = no_blocks dtor_max })
      (length-no_blocks dtor_max) (length-blank dtor_max) (λ e. omega arith) (λ e. omega arith)
