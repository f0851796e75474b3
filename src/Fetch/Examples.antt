-- ===== src/Fetch/Examples.antt =====
-- Two fetches from a hash by a key of two bytes, the second by its length as a UTF-8 key.
use go_perl.Prelude.{ℕ, ◌-◌, ◌^◌, ◌<◌, ◌≡◌, refl, some, List, [], ◌∷◌, get_or, arith}
use go_perl.Bridge.{Guest, World}
use go_perl.Bridge.Op.{hv_fetch_klen}
use go_perl.Flush.{do_op}
use go_perl.Save.Examples.{quiet}
use go_perl.Fetch.{xs_tmps, Slots, slot, of_hash, fetch, fetches, hv_fetch, tmp_slot, key_length}
use go_perl.Fetch.Kept.{fetches_lem}

abbrev full : Guest
full = record { answer = λ log call. 9 }

abbrev slots : World → Slots
slots w = record {
  tmp = 0 ∷ 0 ∷ 0 ∷ 0 ∷ 0 ∷ 0 ∷ 0 ∷ 0 ∷ 0 ∷ 0 ∷ 0 ∷ 0 ∷ 0 ∷ 0 ∷ 0 ∷ 0 ∷ [];
  tmpidx = 15;
  imm = 0 ∷ 0 ∷ 0 ∷ [];
  world = w;
}

abbrev key : List ℕ
key = b'i' ∷ b'd' ∷ []

abbrev fetched : Slots
fetched = record (slots (do_op full hv_fetch_klen 5 0 key quiet).1) {
  tmp = 0 ∷ 0 ∷ 0 ∷ 0 ∷ 0 ∷ 0 ∷ 0 ∷ 0 ∷ 0 ∷ 0 ∷ 0 ∷ 0 ∷ 0 ∷ 0 ∷ 0 ∷ 9 ∷ [];
  tmpidx = 16;
}

fetched_lem : fetch full (of_hash 5 key 2 0) (slots quiet) ≡ slot 15 fetched
unfolding fetch hv_fetch tmp_slot key_length do_op
fetched_lem = refl

fetches_lem_example :
    (f : Slots) × (fetches full (of_hash 5 key (2 ^ 32 - 2) 1 ∷ []) fetched ≡ some f)
    × (15 < xs_tmps)
    × (get_or f.tmp 15 0 ≡ get_or fetched.tmp 15 0)
fetches_lem_example =
    fetches_lem full (of_hash 5 key 2 0) (of_hash 5 key (2 ^ 32 - 2) 1 ∷ []) (slots quiet) 15
      fetched (refl, omega arith) (omega arith) fetched_lem

-- An interpreter whose hash is being torn down.
abbrev silent : Guest
silent = record { answer = λ log call. 0 }
