-- ===== src/Bridge/Op/Examples.antt =====
-- The numbering of the operations at two of them.
use go_perl.Prelude.{◌≡◌, refl}
use go_perl.Bridge.Op.{sv_iv}
use go_perl.Bridge.Op.Unique.{op_number-injective}

op_number-injective_example : sv_iv ≡ sv_iv
op_number-injective_example = op_number-injective sv_iv sv_iv refl
