-- ===== src/Magic/Examples.antt =====
-- A module unlinks the head of one SV's chain, attaches magic, and reads another SV's chain.
use go_perl.Prelude.{ℕ, not, ◌≡◌, ◌==◌, refl, List, [], ◌∷◌, ◌++◌, arith}
use go_perl.Bridge.{Guest, Log, magic_chain, magic_set_head, Call}
use go_perl.Flush.Spec.{when}
use go_perl.Save.Examples.{quiet}
use go_perl.Magic.{
  MagicSlot, svmagic_lv, svmagic_assign, Magic, attaching, magic_ops, mg_find, find_type,
}
use go_perl.Magic.WriteBack.{svmagic_lv-svmagic_assign}

abbrev reply : Call → ℕ
reply (magic_chain sv) = 4096
reply call = 0

abbrev chained : Guest
chained = record { answer = λ log call. reply call }

abbrev two_nodes : Log → ℕ → List Magic
two_nodes log sv =
    record { address = 4096; mg_type = 126 } ∷ record { address = 4160; mg_type = 113 } ∷ []

abbrev unread : MagicSlot
unread = record { world = quiet; svmagic_sv = 0; svmagic_val = 0; svmagic_orig = 0 }

svmagic_lv-svmagic_assign_example :
    (let m₁ = svmagic_lv chained 5 unread in
      let m₂ = magic_ops chained two_nodes (attaching 9 0 126 0 [] ∷ []) (svmagic_assign 4160 m₁) in
      let m₃ = svmagic_lv chained 9 m₂ in
      let told = m₂.world.log ++ when (not (4160 == m₁.svmagic_val)) (magic_set_head 5 4160) in
      (m₃.world.log ≡ told ++ (magic_chain 9 ∷ []))
      × (m₃.svmagic_sv ≡ 9)
      × (m₃.svmagic_val ≡ chained.answer told (magic_chain 9))
      × (m₃.svmagic_orig ≡ m₃.svmagic_val))
svmagic_lv-svmagic_assign_example =
    svmagic_lv-svmagic_assign chained two_nodes (attaching 9 0 126 0 [] ∷ []) 5 4160 9 unread
      (λ e. omega arith)

found : (mg_find two_nodes 5 113 quiet).0 ≡ 4160
unfolding mg_find find_type
found = refl
