-- ===== src/Sort.antt =====
-- `goperl_sortsv` (xs/sdk/include/perl.h), which sorts an array of tokens in place, such as the
-- buffer of an array mirror. The comparison is the module's: a parameter, which is true where
-- `cmp(f, a, b) > 0`.
pub mod Zipper
pub mod Stable
pub mod Examples
use go_perl.Prelude.{ℕ, zero, suc, ◌-◌, Bool, List, get_or, set, if◌then◌else◌}

-- `while (j > 0 && cmp(f, array[j - 1], key) > 0)` with its body, and `array[j] = key`.
pub shift : (ℕ → ℕ → Bool) → ℕ → ℕ → List ℕ → List ℕ
shift gt key zero array = set array 0 key
shift gt key (suc j) array =
    let moved = shift gt key j (set array (suc j) (get_or array j 0)) in
    if gt (get_or array j 0) key then moved else set array (suc j) key

-- The `for` loop from `i` on, with the rounds that are left.
pub insert_from : (ℕ → ℕ → Bool) → ℕ → ℕ → List ℕ → List ℕ
unfolding shift
insert_from gt i zero array = array
insert_from gt i (suc left) array =
    insert_from gt (suc i) left (shift gt (get_or array i 0) i array)

pub sortsv : (ℕ → ℕ → Bool) → ℕ → List ℕ → List ℕ
unfolding insert_from
sortsv gt n array = insert_from gt 1 (n - 1) array
