-- ===== src/Optree/Build/Kids.antt =====
-- What the constructors of ops do with the tokens of their kids.
use go_perl.Prelude.{ℕ, ◌≡◌, ◌≢◌, ap, ◌∙◌, false, none, [], get_or, ◌==◌, arith}
use go_perl.Bridge.{Guest}
use go_perl.Bridge.Op.{op_fields}
use go_perl.Flush.{do_op}
use go_perl.Optree.{Optree}
use go_perl.Optree.Registry.{op_shadow, find_op, bucket_of}
use go_perl.Optree.Registry.Identity.{op_shadow-Adopted}
use go_perl.Optree.Build.{op_refresh, op_refresh_tok}

op_refresh_empty :
    (g : Guest) (a : ℕ) (t : Optree) → (t.ops a).gop_full ≡ false → op_refresh g a t ≡ t
unfolding op_refresh
op_refresh_empty g a t h = ground arith

-- The refresh of a token that the registry does not know, of whatever it is the token, asks the
-- interpreter for the fields of an op at that token and nothing else. No long-lived shadow is kept.
pub op_refresh_tok_unknown :
    (g : Guest) (tok : ℕ) (t : Optree)
    → tok ≢ 0
    → find_op t.ops tok (get_or t.buckets (bucket_of tok) []) ≡ none
    → t.opext ≡ []
    → (op_refresh_tok g tok t).world ≡ (do_op g op_fields tok 0 [] t.world).1
unfolding op_refresh_tok
op_refresh_tok_unknown g tok t nz missing none_kept =
    let some_tok : (tok == 0) ≡ false = ground arith in
    let r = op_shadow g tok t in
    let adopted = op_shadow-Adopted g tok t nz missing none_kept in
    rw some_tok (ap (λ u. u.world) (op_refresh_empty g r.0 r.1 adopted.empty) ∙ adopted.asked)
