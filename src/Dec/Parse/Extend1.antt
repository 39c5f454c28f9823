-- ===== src/Dec/Parse/Extend1.antt =====
-- The functions of the tables of op_parse_private.c, from extend_code_0110_10 to extend_code_1010_00 (src/cpu/cpu_dec).
use athrill_target_rh850f1x.Base.{Option, none, true, not, ◌==◌, ◌&&◌, bit_and, [], ◌∷◌}
use athrill_target_rh850f1x.Dec.CodeId.{
  absf_d_f, absf_s_f, addf_d_f, addf_s_f, adf_11, bsh_12, bsw_12, ceilf_dl_f, ceilf_dul_f,
  ceilf_duw_f, ceilf_dw_f, ceilf_sl_f, ceilf_sul_f, ceilf_suw_f, ceilf_sw_f, cmovf_d_f, cmovf_s_f,
  cmpf_d_f, cmpf_s_f, cvtf_dl_f, cvtf_ds_f, cvtf_dul_f, cvtf_duw_f, cvtf_dw_f, cvtf_hs_f, cvtf_ld_f,
  cvtf_ls_f, cvtf_sd_f, cvtf_sh_f, cvtf_sl_f, cvtf_sul_f, cvtf_suw_f, cvtf_sw_f, cvtf_uld_f,
  cvtf_uls_f, cvtf_uwd_f, cvtf_uws_f, cvtf_wd_f, cvtf_ws_f, divf_d_f, divf_s_f, floorf_dl_f,
  floorf_dul_f, floorf_duw_f, floorf_dw_f, floorf_sl_f, floorf_sul_f, floorf_suw_f, floorf_sw_f,
  fmaf_s_f, fmsf_s_f, fnmaf_s_f, fnmsf_s_f, hsh_12, hsw_12, ldl_w_7, mac_11, macu_11, maddf_s_f,
  maxf_d_f, maxf_s_f, minf_d_f, minf_s_f, mulf_d_f, mulf_s_f, negf_d_f, negf_s_f, recipf_d_f,
  recipf_s_f, roundf_sl_f, roundf_sul_f, roundf_suw_f, roundf_sw_f, rsqrtf_d_f, rsqrtf_s_f,
  satadd_11, satsub_11, sbf_11, sch0l_9, sch0r_9, sch1l_9, sch1r_9, sqrtf_d_f, sqrtf_s_f, stc_w_7,
  subf_d_f, subf_s_f, trfsr_f, trncf_dl_f, trncf_dul_f, trncf_duw_f, trncf_dw_f, trncf_sl_f,
  trncf_sul_f, trncf_suw_f, trncf_sw_f,
}
use athrill_target_rh850f1x.Dec.Types.{Code, OperationCode, op, first_of, code_value, get_reg3}
use athrill_target_rh850f1x.Dec.Format.{format_11, format_12, format_7, format_9, format_f}

unfoldable pub op_parse_extend_code_0110_10 : Code → Option OperationCode
op_parse_extend_code_0110_10 code =
    let value = code_value code in
    first_of (
      (bit_and value 0x60000 == 0x0, op bsw_12 format_12)
      ∷ (bit_and value 0x60000 == 0x20000, op bsh_12 format_12)
      ∷ (bit_and value 0x60000 == 0x40000, op hsw_12 format_12)
      ∷ (bit_and value 0x60000 == 0x60000, op hsh_12 format_12)
      ∷ [])

unfoldable pub op_parse_extend_code_0110_11 : Code → Option OperationCode
op_parse_extend_code_0110_11 code =
    let value = code_value code in
    first_of (
      (bit_and value 0x1e0000 == 0x180000, op ldl_w_7 format_7)
      ∷ (bit_and value 0x1e0000 == 0x0, op sch0r_9 format_9)
      ∷ (bit_and value 0x1e0000 == 0x20000, op sch1r_9 format_9)
      ∷ (bit_and value 0x1e0000 == 0x1a0000, op stc_w_7 format_7)
      ∷ (bit_and value 0x1e0000 == 0x40000, op sch0l_9 format_9)
      ∷ (bit_and value 0x1e0000 == 0x60000, op sch1l_9 format_9)
      ∷ [])

unfoldable pub op_parse_extend_code_0111_00 : Code → Option OperationCode
op_parse_extend_code_0111_00 code =
    let value = code_value code in
    first_of (
      (bit_and value 0x1e0000 == 0x1a0000, op satsub_11 format_11)
      ∷ (not (bit_and value 0x1e0000 == 0x1a0000), op sbf_11 format_11)
      ∷ [])

unfoldable pub op_parse_extend_code_0111_01 : Code → Option OperationCode
op_parse_extend_code_0111_01 code =
    let value = code_value code in
    first_of (
      (bit_and value 0x1e0000 == 0x1a0000, op satadd_11 format_11)
      ∷ (not (bit_and value 0x1e0000 == 0x1a0000), op adf_11 format_11)
      ∷ [])

unfoldable pub op_parse_extend_code_0111_10 : Code → Option OperationCode
op_parse_extend_code_0111_10 code = first_of ((true, op mac_11 format_11) ∷ [])

unfoldable pub op_parse_extend_code_0111_11 : Code → Option OperationCode
op_parse_extend_code_0111_11 code = first_of ((true, op macu_11 format_11) ∷ [])

unfoldable pub op_parse_extend_code_1000_00 : Code → Option OperationCode
op_parse_extend_code_1000_00 code =
    let reg3 = get_reg3 code.w1 in
    let value = code_value code in
    first_of (
      (not (reg3 == 0) && bit_and value 0x100000 == 0x0, op cmovf_s_f format_f)
      ∷ (not (reg3 == 0) && bit_and value 0x100000 == 0x100000, op cmovf_d_f format_f)
      ∷ (reg3 == 0 && bit_and value 0x100000 == 0x0, op trfsr_f format_f)
      ∷ [])

unfoldable pub op_parse_extend_code_1000_01 : Code → Option OperationCode
op_parse_extend_code_1000_01 code =
    let value = code_value code in
    first_of (
      (bit_and value 0x100000 == 0x0, op cmpf_s_f format_f)
      ∷ (bit_and value 0x100000 == 0x100000, op cmpf_d_f format_f)
      ∷ [])

unfoldable pub op_parse_extend_code_1000_10 : Code → Option OperationCode
op_parse_extend_code_1000_10 code =
    let value = code_value code in
    first_of (
      (bit_and value 0x1e001f == 0x80000, op absf_s_f format_f)
      ∷ (bit_and value 0x1e001f == 0x180000, op absf_d_f format_f)
      ∷ (bit_and value 0x1e001f == 0x40002, op ceilf_sl_f format_f)
      ∷ (bit_and value 0x1e001f == 0x140002, op ceilf_dl_f format_f)
      ∷ (bit_and value 0x1e001f == 0x40012, op ceilf_sul_f format_f)
      ∷ (bit_and value 0x1e001f == 0x140012, op ceilf_dul_f format_f)
      ∷ (bit_and value 0x1e001f == 0x12, op ceilf_suw_f format_f)
      ∷ (bit_and value 0x1e001f == 0x100012, op ceilf_duw_f format_f)
      ∷ (bit_and value 0x1e001f == 0x2, op ceilf_sw_f format_f)
      ∷ (bit_and value 0x1e001f == 0x100002, op ceilf_dw_f format_f)
      ∷ (bit_and value 0x1e001f == 0x20002, op cvtf_hs_f format_f)
      ∷ (bit_and value 0x1e001f == 0x20001, op cvtf_ls_f format_f)
      ∷ (bit_and value 0x1e001f == 0x40004, op cvtf_sl_f format_f)
      ∷ (bit_and value 0x1e001f == 0x20003, op cvtf_sh_f format_f)
      ∷ (bit_and value 0x1e001f == 0x40014, op cvtf_sul_f format_f)
      ∷ (bit_and value 0x1e001f == 0x14, op cvtf_suw_f format_f)
      ∷ (bit_and value 0x1e001f == 0x4, op cvtf_sw_f format_f)
      ∷ (bit_and value 0x1e001f == 0x20011, op cvtf_uls_f format_f)
      ∷ (bit_and value 0x1e001f == 0x20010, op cvtf_uws_f format_f)
      ∷ (bit_and value 0x1e001f == 0x20000, op cvtf_ws_f format_f)
      ∷ (bit_and value 0x1e001f == 0x120001, op cvtf_ld_f format_f)
      ∷ (bit_and value 0x1e001f == 0x140004, op cvtf_dl_f format_f)
      ∷ (bit_and value 0x1e001f == 0x140014, op cvtf_dul_f format_f)
      ∷ (bit_and value 0x1e001f == 0x100014, op cvtf_duw_f format_f)
      ∷ (bit_and value 0x1e001f == 0x100004, op cvtf_dw_f format_f)
      ∷ (bit_and value 0x1e001f == 0x120011, op cvtf_uld_f format_f)
      ∷ (bit_and value 0x1e001f == 0x120010, op cvtf_uwd_f format_f)
      ∷ (bit_and value 0x1e001f == 0x120000, op cvtf_wd_f format_f)
      ∷ (bit_and value 0x1e001f == 0x40003, op floorf_sl_f format_f)
      ∷ (bit_and value 0x1e001f == 0x40013, op floorf_sul_f format_f)
      ∷ (bit_and value 0x1e001f == 0x13, op floorf_suw_f format_f)
      ∷ (bit_and value 0x1e001f == 0x3, op floorf_sw_f format_f)
      ∷ (bit_and value 0x1e001f == 0x140003, op floorf_dl_f format_f)
      ∷ (bit_and value 0x1e001f == 0x140013, op floorf_dul_f format_f)
      ∷ (bit_and value 0x1e001f == 0x100013, op floorf_duw_f format_f)
      ∷ (bit_and value 0x1e001f == 0x100003, op floorf_dw_f format_f)
      ∷ (bit_and value 0x1e001f == 0x80001, op negf_s_f format_f)
      ∷ (bit_and value 0x1e001f == 0x180001, op negf_d_f format_f)
      ∷ (bit_and value 0x1e001f == 0xe0001, op recipf_s_f format_f)
      ∷ (bit_and value 0x1e001f == 0x1e0001, op recipf_d_f format_f)
      ∷ (bit_and value 0x1e001f == 0x40000, op roundf_sl_f format_f)
      ∷ (bit_and value 0x1e001f == 0x40010, op roundf_sul_f format_f)
      ∷ (bit_and value 0x1e001f == 0x10, op roundf_suw_f format_f)
      ∷ (bit_and value 0x1e001f == 0x0, op roundf_sw_f format_f)
      ∷ (bit_and value 0x1e001f == 0xe0002, op rsqrtf_s_f format_f)
      ∷ (bit_and value 0x1e001f == 0x1e0002, op rsqrtf_d_f format_f)
      ∷ (bit_and value 0x1e001f == 0xe0000, op sqrtf_s_f format_f)
      ∷ (bit_and value 0x1e001f == 0x1e0000, op sqrtf_d_f format_f)
      ∷ (bit_and value 0x1e001f == 0x120003, op cvtf_ds_f format_f)
      ∷ (bit_and value 0x1e001f == 0x120002, op cvtf_sd_f format_f)
      ∷ (bit_and value 0x1e001f == 0x40001, op trncf_sl_f format_f)
      ∷ (bit_and value 0x1e001f == 0x40011, op trncf_sul_f format_f)
      ∷ (bit_and value 0x1e001f == 0x11, op trncf_suw_f format_f)
      ∷ (bit_and value 0x1e001f == 0x1, op trncf_sw_f format_f)
      ∷ (bit_and value 0x1e001f == 0x140001, op trncf_dl_f format_f)
      ∷ (bit_and value 0x1e001f == 0x140011, op trncf_dul_f format_f)
      ∷ (bit_and value 0x1e001f == 0x100011, op trncf_duw_f format_f)
      ∷ (bit_and value 0x1e001f == 0x100001, op trncf_dw_f format_f)
      ∷ (bit_and value 0x1e001f == 0x120003, op cvtf_ds_f format_f)
      ∷ (bit_and value 0x1e001f == 0x120002, op cvtf_sd_f format_f)
      ∷ [])

unfoldable pub op_parse_extend_code_1000_11 : Code → Option OperationCode
op_parse_extend_code_1000_11 code =
    let value = code_value code in
    first_of (
      (bit_and value 0x1e0000 == 0x0, op addf_s_f format_f)
      ∷ (bit_and value 0x1e0000 == 0x100000, op addf_d_f format_f)
      ∷ (bit_and value 0x1e0000 == 0xe0000, op divf_s_f format_f)
      ∷ (bit_and value 0x1e0000 == 0x1e0000, op divf_d_f format_f)
      ∷ (bit_and value 0x1e0000 == 0x80000, op maxf_s_f format_f)
      ∷ (bit_and value 0x1e0000 == 0x180000, op maxf_d_f format_f)
      ∷ (bit_and value 0x1e0000 == 0xa0000, op minf_s_f format_f)
      ∷ (bit_and value 0x1e0000 == 0x1a0000, op minf_d_f format_f)
      ∷ (bit_and value 0x1e0000 == 0x40000, op mulf_s_f format_f)
      ∷ (bit_and value 0x1e0000 == 0x20000, op subf_s_f format_f)
      ∷ (bit_and value 0x1e0000 == 0x120000, op subf_d_f format_f)
      ∷ (bit_and value 0x1e0000 == 0x140000, op mulf_d_f format_f)
      ∷ (bit_and value 0x1e0000 == 0x140000, op mulf_d_f format_f)
      ∷ [])

unfoldable pub op_parse_extend_code_1001_00 : Code → Option OperationCode
op_parse_extend_code_1001_00 code = none

unfoldable pub op_parse_extend_code_1001_01 : Code → Option OperationCode
op_parse_extend_code_1001_01 code = none

unfoldable pub op_parse_extend_code_1001_10 : Code → Option OperationCode
op_parse_extend_code_1001_10 code = none

unfoldable pub op_parse_extend_code_1001_11 : Code → Option OperationCode
op_parse_extend_code_1001_11 code =
    let value = code_value code in
    first_of (
      (bit_and value 0x1e0000 == 0x0, op fmaf_s_f format_f)
      ∷ (bit_and value 0x1e0000 == 0x20000, op fmsf_s_f format_f)
      ∷ (bit_and value 0x1e0000 == 0x40000, op fnmaf_s_f format_f)
      ∷ (bit_and value 0x1e0000 == 0x60000, op fnmsf_s_f format_f)
      ∷ [])

unfoldable pub op_parse_extend_code_1010_00 : Code → Option OperationCode
op_parse_extend_code_1010_00 code = first_of ((true, op maddf_s_f format_f) ∷ [])
