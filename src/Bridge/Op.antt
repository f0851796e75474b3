-- ===== src/Bridge/Op.antt =====
-- The guest operation numbers that the vtable's `xs_op` takes (xs/sdk/include/perl.h).
pub mod Unique
pub mod Examples
use go_perl.Prelude.{ℕ}

pub data GuestOp : Type 0 where
  sv_iv sv_pv new_iv new_pvn sv_mortal new_uv new_av new_hv new_rv_inc av_push av_len av_fetch :
      GuestOp
  hv_store hv_fetch refcnt_inc gv_stashpv sv_bless sv_rv sv_type sv_isa sv_derived_from : GuestOp
  setref_iv sv_setsv sv_setsv_nomg sv_setsv_mg sv_setiv sv_setuv sv_setnv sv_setpvn sv_nv : GuestOp
  new_nv new_svsv sv_mortalcopy sv_catsv sv_catsv_nomg sv_catpvn sv_true sv_info sv_cur_set :
      GuestOp
  sv_grow sv_eq sv_cmp sv_rvweaken sv_2cv get_sv get_cv gv_fetch av_store av_extend av_fill :
      GuestOp
  av_read hv_fetch_ent hv_store_ent hv_exists_ent he_val hv_iterinit hv_iternext hv_iterkeysv :
      GuestOp
  hv_iterval enter leave savetmps freetmps call_sv call_method errsv save_op run_pp : GuestOp
  magic_attach magic_id magic_unattach plvar_get plvar_set sv_utf8_on sv_pok_on sv_dump : GuestOp
  sv_refcnt_dec sv_unmagic save_hook new_xs sv_stash new_sv sv_upgrade sv_utf8_upgrade : GuestOp
  save_delete save_helem new_pvn_share sv_len new_hvhv av_make looks_like_number sv_amagic : GuestOp
  amagic_call warn get_hv av_store_raw pp_hook_set run_original save_destructor op_fields : GuestOp
  op_ptr cop_line cop_file cop_stashpv cv_info cv_ptr gv_ptr gv_name sv_isgv_gp hv_name si_get :
      GuestOp
  cx_fields cx_ptr op_name_str cv_file gv_fetchfile hv_clear hv_delete av_exists sv_utf8_off :
      GuestOp
  save_scalar sv_readonly_on eval_pv av_unshift new_constsub sv_pvx_raw hv_pkg_gen sv_refcnt :
      GuestOp
  gv_init gv_amg sv_amagic_set sv_magic_set_hook gv_fetchmethod sv_readonly_off sv_pv_force :
      GuestOp
  sv_chop sv_insert sv_utf8_decode sv_utf8_downgrade mg_set gimme_v ckwarn sv_len_buf : GuestOp
  hv_store_klen hv_fetch_klen hv_delete_ent av_pop cop_hints sv_is_bool sv_pok_only eval_sv :
      GuestOp
  av_shift sv_2io sv_force_normal perlio_open perlio_close perlio_puts perlio_flush : GuestOp
  perlio_write io_ofp sv_cur sv_magic_std perlio_def_layer perlio_next_read : GuestOp
  perlio_next_fastgets perlio_next_getcnt perlio_next_getptr perlio_next_setptrcnt : GuestOp
  perlio_next_fill perlio_state optree_new optree_misc op_set lex parse parser_get parser_set :
      GuestOp
  block pad keyword_enable charclass save_misc sv_classify : GuestOp

unfoldable pub op_number : GuestOp → ℕ
op_number sv_iv = 1
op_number sv_pv = 2
op_number new_iv = 3
op_number new_pvn = 4
op_number sv_mortal = 5
op_number new_uv = 6
op_number new_av = 7
op_number new_hv = 8
op_number new_rv_inc = 9
op_number av_push = 10
op_number av_len = 11
op_number av_fetch = 12
op_number hv_store = 13
op_number hv_fetch = 14
op_number refcnt_inc = 15
op_number gv_stashpv = 16
op_number sv_bless = 17
op_number sv_rv = 18
op_number sv_type = 19
op_number sv_isa = 20
op_number sv_derived_from = 21
op_number setref_iv = 22
op_number sv_setsv = 23
op_number sv_setsv_nomg = 24
op_number sv_setsv_mg = 25
op_number sv_setiv = 26
op_number sv_setuv = 27
op_number sv_setnv = 28
op_number sv_setpvn = 29
op_number sv_nv = 30
op_number new_nv = 31
op_number new_svsv = 32
op_number sv_mortalcopy = 33
op_number sv_catsv = 34
op_number sv_catsv_nomg = 35
op_number sv_catpvn = 36
op_number sv_true = 37
op_number sv_info = 38
op_number sv_cur_set = 39
op_number sv_grow = 40
op_number sv_eq = 41
op_number sv_cmp = 42
op_number sv_rvweaken = 43
op_number sv_2cv = 44
op_number get_sv = 45
op_number get_cv = 46
op_number gv_fetch = 47
op_number av_store = 48
op_number av_extend = 49
op_number av_fill = 50
op_number av_read = 51
op_number hv_fetch_ent = 53
op_number hv_store_ent = 54
op_number hv_exists_ent = 55
op_number he_val = 56
op_number hv_iterinit = 57
op_number hv_iternext = 58
op_number hv_iterkeysv = 59
op_number hv_iterval = 60
op_number enter = 61
op_number leave = 62
op_number savetmps = 63
op_number freetmps = 64
op_number call_sv = 65
op_number call_method = 66
op_number errsv = 67
op_number save_op = 68
op_number run_pp = 69
op_number magic_attach = 70
op_number magic_id = 71
op_number magic_unattach = 72
op_number plvar_get = 73
op_number plvar_set = 74
op_number sv_utf8_on = 75
op_number sv_pok_on = 76
op_number sv_dump = 77
op_number sv_refcnt_dec = 78
op_number sv_unmagic = 79
op_number save_hook = 80
op_number new_xs = 81
op_number sv_stash = 82
op_number new_sv = 83
op_number sv_upgrade = 84
op_number sv_utf8_upgrade = 85
op_number save_delete = 86
op_number save_helem = 87
op_number new_pvn_share = 88
op_number sv_len = 89
op_number new_hvhv = 90
op_number av_make = 91
op_number looks_like_number = 92
op_number sv_amagic = 93
op_number amagic_call = 94
op_number warn = 95
op_number get_hv = 96
op_number av_store_raw = 97
op_number pp_hook_set = 98
op_number run_original = 99
op_number save_destructor = 100
op_number op_fields = 101
op_number op_ptr = 102
op_number cop_line = 103
op_number cop_file = 104
op_number cop_stashpv = 105
op_number cv_info = 106
op_number cv_ptr = 107
op_number gv_ptr = 108
op_number gv_name = 109
op_number sv_isgv_gp = 110
op_number hv_name = 111
op_number si_get = 112
op_number cx_fields = 113
op_number cx_ptr = 114
op_number op_name_str = 115
op_number cv_file = 116
op_number gv_fetchfile = 117
op_number hv_clear = 118
op_number hv_delete = 119
op_number av_exists = 120
op_number sv_utf8_off = 121
op_number save_scalar = 122
op_number sv_readonly_on = 123
op_number eval_pv = 124
op_number av_unshift = 125
op_number new_constsub = 126
op_number sv_pvx_raw = 127
op_number hv_pkg_gen = 128
op_number sv_refcnt = 129
op_number gv_init = 130
op_number gv_amg = 131
op_number sv_amagic_set = 132
op_number sv_magic_set_hook = 133
op_number gv_fetchmethod = 134
op_number sv_readonly_off = 135
op_number sv_pv_force = 136
op_number sv_chop = 137
op_number sv_insert = 138
op_number sv_utf8_decode = 139
op_number sv_utf8_downgrade = 140
op_number mg_set = 141
op_number gimme_v = 142
op_number ckwarn = 143
op_number sv_len_buf = 144
op_number hv_store_klen = 145
op_number hv_fetch_klen = 146
op_number hv_delete_ent = 147
op_number av_pop = 148
op_number cop_hints = 149
op_number sv_is_bool = 150
op_number sv_pok_only = 151
op_number eval_sv = 152
op_number av_shift = 153
op_number sv_2io = 154
op_number sv_force_normal = 155
op_number perlio_open = 156
op_number perlio_close = 157
op_number perlio_puts = 158
op_number perlio_flush = 159
op_number perlio_write = 160
op_number io_ofp = 161
op_number sv_cur = 162
op_number sv_magic_std = 163
op_number perlio_def_layer = 164
op_number perlio_next_read = 165
op_number perlio_next_fastgets = 166
op_number perlio_next_getcnt = 167
op_number perlio_next_getptr = 168
op_number perlio_next_setptrcnt = 169
op_number perlio_next_fill = 170
op_number perlio_state = 171
op_number optree_new = 172
op_number optree_misc = 173
op_number op_set = 174
op_number lex = 175
op_number parse = 176
op_number parser_get = 177
op_number parser_set = 178
op_number block = 179
op_number pad = 180
op_number keyword_enable = 181
op_number charclass = 182
op_number save_misc = 183
op_number sv_classify = 184
