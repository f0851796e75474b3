-- ===== src/Bridge/Op/Unique.antt =====
-- No two guest operations share a number.
use go_perl.Prelude.{◌≡◌, refl, Option, none, some, List, [], ◌∷◌, get_elem?, ap, ◌∙◌, sym}
use go_perl.Bridge.Op.{GuestOp, op_number}
use go_perl.Bridge.Op.{
  sv_iv, sv_pv, new_iv, new_pvn, sv_mortal, new_uv, new_av, new_hv, new_rv_inc, av_push, av_len,
  av_fetch, hv_store, hv_fetch, refcnt_inc, gv_stashpv, sv_bless, sv_rv, sv_type, sv_isa,
  sv_derived_from, setref_iv, sv_setsv, sv_setsv_nomg, sv_setsv_mg, sv_setiv, sv_setuv, sv_setnv,
  sv_setpvn, sv_nv, new_nv, new_svsv, sv_mortalcopy, sv_catsv, sv_catsv_nomg, sv_catpvn, sv_true,
  sv_info, sv_cur_set, sv_grow, sv_eq, sv_cmp, sv_rvweaken, sv_2cv, get_sv, get_cv, gv_fetch,
  av_store, av_extend, av_fill, av_read, hv_fetch_ent, hv_store_ent, hv_exists_ent, he_val,
  hv_iterinit, hv_iternext, hv_iterkeysv, hv_iterval, enter, leave, savetmps, freetmps, call_sv,
  call_method, errsv, save_op, run_pp, magic_attach, magic_id, magic_unattach, plvar_get, plvar_set,
  sv_utf8_on, sv_pok_on, sv_dump, sv_refcnt_dec, sv_unmagic, save_hook, new_xs, sv_stash, new_sv,
  sv_upgrade, sv_utf8_upgrade, save_delete, save_helem, new_pvn_share, sv_len, new_hvhv, av_make,
  looks_like_number, sv_amagic, amagic_call, warn, get_hv, av_store_raw, pp_hook_set, run_original,
  save_destructor, op_fields, op_ptr, cop_line, cop_file, cop_stashpv, cv_info, cv_ptr, gv_ptr,
  gv_name, sv_isgv_gp, hv_name, si_get, cx_fields, cx_ptr, op_name_str, cv_file, gv_fetchfile,
  hv_clear, hv_delete, av_exists, sv_utf8_off, save_scalar, sv_readonly_on, eval_pv, av_unshift,
  new_constsub, sv_pvx_raw, hv_pkg_gen, sv_refcnt, gv_init, gv_amg, sv_amagic_set,
  sv_magic_set_hook, gv_fetchmethod, sv_readonly_off, sv_pv_force, sv_chop, sv_insert,
  sv_utf8_decode, sv_utf8_downgrade, mg_set, gimme_v, ckwarn, sv_len_buf, hv_store_klen,
  hv_fetch_klen, hv_delete_ent, av_pop, cop_hints, sv_is_bool, sv_pok_only, eval_sv, av_shift,
  sv_2io, sv_force_normal, perlio_open, perlio_close, perlio_puts, perlio_flush, perlio_write,
  io_ofp, sv_cur, sv_magic_std, perlio_def_layer, perlio_next_read, perlio_next_fastgets,
  perlio_next_getcnt, perlio_next_getptr, perlio_next_setptrcnt, perlio_next_fill, perlio_state,
  optree_new, optree_misc, op_set, lex, parse, parser_get, parser_set, block, pad, keyword_enable,
  charclass, save_misc, sv_classify,
}

-- The operation behind each number; 0 and 52 are not in use.
abbrev by_number : List (Option GuestOp)
by_number =
    none
    ∷ some sv_iv
    ∷ some sv_pv
    ∷ some new_iv
    ∷ some new_pvn
    ∷ some sv_mortal
    ∷ some new_uv
    ∷ some new_av
    ∷ some new_hv
    ∷ some new_rv_inc
    ∷ some av_push
    ∷ some av_len
    ∷ some av_fetch
    ∷ some hv_store
    ∷ some hv_fetch
    ∷ some refcnt_inc
    ∷ some gv_stashpv
    ∷ some sv_bless
    ∷ some sv_rv
    ∷ some sv_type
    ∷ some sv_isa
    ∷ some sv_derived_from
    ∷ some setref_iv
    ∷ some sv_setsv
    ∷ some sv_setsv_nomg
    ∷ some sv_setsv_mg
    ∷ some sv_setiv
    ∷ some sv_setuv
    ∷ some sv_setnv
    ∷ some sv_setpvn
    ∷ some sv_nv
    ∷ some new_nv
    ∷ some new_svsv
    ∷ some sv_mortalcopy
    ∷ some sv_catsv
    ∷ some sv_catsv_nomg
    ∷ some sv_catpvn
    ∷ some sv_true
    ∷ some sv_info
    ∷ some sv_cur_set
    ∷ some sv_grow
    ∷ some sv_eq
    ∷ some sv_cmp
    ∷ some sv_rvweaken
    ∷ some sv_2cv
    ∷ some get_sv
    ∷ some get_cv
    ∷ some gv_fetch
    ∷ some av_store
    ∷ some av_extend
    ∷ some av_fill
    ∷ some av_read
    ∷ none
    ∷ some hv_fetch_ent
    ∷ some hv_store_ent
    ∷ some hv_exists_ent
    ∷ some he_val
    ∷ some hv_iterinit
    ∷ some hv_iternext
    ∷ some hv_iterkeysv
    ∷ some hv_iterval
    ∷ some enter
    ∷ some leave
    ∷ some savetmps
    ∷ some freetmps
    ∷ some call_sv
    ∷ some call_method
    ∷ some errsv
    ∷ some save_op
    ∷ some run_pp
    ∷ some magic_attach
    ∷ some magic_id
    ∷ some magic_unattach
    ∷ some plvar_get
    ∷ some plvar_set
    ∷ some sv_utf8_on
    ∷ some sv_pok_on
    ∷ some sv_dump
    ∷ some sv_refcnt_dec
    ∷ some sv_unmagic
    ∷ some save_hook
    ∷ some new_xs
    ∷ some sv_stash
    ∷ some new_sv
    ∷ some sv_upgrade
    ∷ some sv_utf8_upgrade
    ∷ some save_delete
    ∷ some save_helem
    ∷ some new_pvn_share
    ∷ some sv_len
    ∷ some new_hvhv
    ∷ some av_make
    ∷ some looks_like_number
    ∷ some sv_amagic
    ∷ some amagic_call
    ∷ some warn
    ∷ some get_hv
    ∷ some av_store_raw
    ∷ some pp_hook_set
    ∷ some run_original
    ∷ some save_destructor
    ∷ some op_fields
    ∷ some op_ptr
    ∷ some cop_line
    ∷ some cop_file
    ∷ some cop_stashpv
    ∷ some cv_info
    ∷ some cv_ptr
    ∷ some gv_ptr
    ∷ some gv_name
    ∷ some sv_isgv_gp
    ∷ some hv_name
    ∷ some si_get
    ∷ some cx_fields
    ∷ some cx_ptr
    ∷ some op_name_str
    ∷ some cv_file
    ∷ some gv_fetchfile
    ∷ some hv_clear
    ∷ some hv_delete
    ∷ some av_exists
    ∷ some sv_utf8_off
    ∷ some save_scalar
    ∷ some sv_readonly_on
    ∷ some eval_pv
    ∷ some av_unshift
    ∷ some new_constsub
    ∷ some sv_pvx_raw
    ∷ some hv_pkg_gen
    ∷ some sv_refcnt
    ∷ some gv_init
    ∷ some gv_amg
    ∷ some sv_amagic_set
    ∷ some sv_magic_set_hook
    ∷ some gv_fetchmethod
    ∷ some sv_readonly_off
    ∷ some sv_pv_force
    ∷ some sv_chop
    ∷ some sv_insert
    ∷ some sv_utf8_decode
    ∷ some sv_utf8_downgrade
    ∷ some mg_set
    ∷ some gimme_v
    ∷ some ckwarn
    ∷ some sv_len_buf
    ∷ some hv_store_klen
    ∷ some hv_fetch_klen
    ∷ some hv_delete_ent
    ∷ some av_pop
    ∷ some cop_hints
    ∷ some sv_is_bool
    ∷ some sv_pok_only
    ∷ some eval_sv
    ∷ some av_shift
    ∷ some sv_2io
    ∷ some sv_force_normal
    ∷ some perlio_open
    ∷ some perlio_close
    ∷ some perlio_puts
    ∷ some perlio_flush
    ∷ some perlio_write
    ∷ some io_ofp
    ∷ some sv_cur
    ∷ some sv_magic_std
    ∷ some perlio_def_layer
    ∷ some perlio_next_read
    ∷ some perlio_next_fastgets
    ∷ some perlio_next_getcnt
    ∷ some perlio_next_getptr
    ∷ some perlio_next_setptrcnt
    ∷ some perlio_next_fill
    ∷ some perlio_state
    ∷ some optree_new
    ∷ some optree_misc
    ∷ some op_set
    ∷ some lex
    ∷ some parse
    ∷ some parser_get
    ∷ some parser_set
    ∷ some block
    ∷ some pad
    ∷ some keyword_enable
    ∷ some charclass
    ∷ some save_misc
    ∷ some sv_classify
    ∷ []

abbrev unwrap : GuestOp → Option (Option GuestOp) → GuestOp
unwrap d (some (some o)) = o
unwrap d (some none) = d
unwrap d none = d

listed : (o : GuestOp) → get_elem? by_number (op_number o) ≡ some (some o)
unfolding op_number
listed sv_iv = refl
listed _ = refl

-- No two operations share a number: the guest's dispatch can tell them apart.
pub op_number-injective : (o p : GuestOp) → op_number o ≡ op_number p → o ≡ p
op_number-injective o p h = ap (unwrap o) (sym (listed o) ∙ ap (get_elem? by_number) h ∙ listed p)
