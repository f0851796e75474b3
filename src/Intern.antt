-- ===== src/Intern.antt =====
-- The string table of xs/sdk/include/perl.h: `goperl_intern` keeps one host copy of each identity
-- string (file and package names), since modules compare and retain the pointers.
pub mod Stable
pub mod Examples
use Prim.Native.Nat.{bit_xor}
use go_perl.Prelude.{
  ℕ, ◌*◌, ◌%◌, ◌^◌, Bool, true, false, ◌&&◌, Option, none, some, List, [], ◌∷◌, ◌++◌, ◌==◌,
  if◌then◌else◌, length, get_or, set,
}
use go_perl.Text.{mem_eq, strlen}

abbrev pub intern_buckets : ℕ
intern_buckets = 256

-- The entries of a bucket, first to last: the bytes of each, without the NUL behind them.
abbrev pub Chain : Type 0
Chain = List (List ℕ)

-- A pointer into an entry: its bucket, and the number of entries behind it, which stays when
-- entries are pushed.
abbrev pub Pointer : Type 0
Pointer = ℕ × ℕ

pub hash_loop : ℕ → List ℕ → ℕ
hash_loop h [] = h
hash_loop h (c ∷ s) = hash_loop (bit_xor h c * 16777619 % 2 ^ 32) s

pub intern_hash : List ℕ → ℕ
unfolding hash_loop
intern_hash s = hash_loop 2166136261 s % intern_buckets

-- `strlen(e->s) == n && memcmp(e->s, p, n) == 0`
pub entry_is : List ℕ → List ℕ → Bool
entry_is s e = strlen (e ++ 0 ∷ []) == length s && mem_eq s (e ++ 0 ∷ [])

-- The loop over the bucket.
pub lookup : List ℕ → Chain → Option ℕ
lookup s [] = none
lookup s (e ∷ es) = let rest = lookup s es in if entry_is s e then some (length es) else rest

-- `goperl_intern` of the bytes `s`, where `malloc` succeeds or not; no pointer stands for the
-- literal "" that it then returns.
pub intern : Bool → List ℕ → List Chain → Option Pointer × List Chain
unfolding intern_hash lookup entry_is
intern room s t =
    let h = intern_hash s in
    let chain = get_or t h [] in
    elim (lookup s chain) [
      | some k ↦ (some (h, k), t)
      | none ↦ if room then (some (h, length chain), set t h (s ∷ chain)) else (none, t)
    ]

-- `goperl_intern_packed`, with the guest's memory at `ptr` as the bytes from there, or none for a
-- null `guest_mem`; the outer option is the null pointer that it returns.
pub intern_packed : Bool → ℕ → Option (List ℕ) → List Chain → Option (Option Pointer) × List Chain
unfolding intern
intern_packed room packed bytes t =
    if packed == 0
    then (none, t)
    else elim bytes [ none ↦ (none, t) | some s ↦ (let (p, t') = intern room s t in (some p, t')) ]
