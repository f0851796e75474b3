-- ===== src/Attributes/Examples.antt =====
-- The attributes " lvalue  method" at an interpreter that answers 1 to each call.
use go_perl.Prelude.{ℕ, ◌≡◌, refl, List, [], ◌∷◌, ◌++◌, take}
use go_perl.Bridge.{Guest}
use go_perl.Save.Examples.{quiet}
use go_perl.Attributes.{apply_attrs_string, attr_head, import_attrs}
use go_perl.Attributes.Words.{words, words_from, new_words, apply_attrs_string_lem}

abbrev ready : Guest
ready = record { answer = λ log call. 1 }

abbrev lvalue : List ℕ
lvalue = b'l' ∷ b'v' ∷ b'a' ∷ b'l' ∷ b'u' ∷ b'e' ∷ []

abbrev two_attrs : List ℕ
two_attrs = b' ' ∷ (lvalue ++ (b' ' ∷ b' ' ∷ b'm' ∷ []))

two_words : words two_attrs ≡ lvalue ∷ (b'm' ∷ []) ∷ []
unfolding words_from
two_words = refl

apply_attrs_string_lem_example :
    let head = attr_head ready (b'P' ∷ []) 7 quiet in
    let passed = new_words ready (take 13 (words two_attrs)) head.0 head.1 in
    apply_attrs_string ready (b'P' ∷ []) 7 two_attrs quiet ≡ import_attrs ready passed.0 passed.1
apply_attrs_string_lem_example = apply_attrs_string_lem ready (b'P' ∷ []) 7 two_attrs quiet
