-- ===== src/Dec/CodeId.antt =====
-- The operation codes (src/cpu/cpu_dec/op_codeid.h).
-- OpCodeId; its value is the position in this list, from 0.
pub data OpCodeId : Type 0 where
  absf_d_f absf_s_f add_1 add_2 addf_d_f addf_s_f addi_6 adf_11 and_1 andi_6 bins_9 : OpCodeId
  bsh_12 bsw_12 bcond_3 bcond_7 callt_2 caxi_11 ceilf_dl_f ceilf_dul_f ceilf_duw_f : OpCodeId
  ceilf_dw_f ceilf_sl_f ceilf_sul_f ceilf_suw_f ceilf_sw_f clr1_8 clr1_9 cmov_12 : OpCodeId
  cmov_11 cmovf_d_f cmovf_s_f cmp_1 cmp_2 cmpf_d_f cmpf_s_f ctret_10 cvtf_dl_f : OpCodeId
  cvtf_ds_f cvtf_dul_f cvtf_duw_f cvtf_dw_f cvtf_hs_f cvtf_ld_f cvtf_ls_f cvtf_sd_f : OpCodeId
  cvtf_sh_f cvtf_sl_f cvtf_sul_f cvtf_suw_f cvtf_sw_f cvtf_uld_f cvtf_uls_f cvtf_uwd_f : OpCodeId
  cvtf_uws_f cvtf_wd_f cvtf_ws_f dbtrap_1 di_10 dispose_13 div_11 divf_d_f divf_s_f : OpCodeId
  divh_1 divh_11 divhu_11 divq_11 divqu_11 divu_11 ei_10 eiret_10 feret_10 fetrap_1 : OpCodeId
  floorf_dl_f floorf_dul_f floorf_duw_f floorf_dw_f floorf_sl_f floorf_sul_f : OpCodeId
  floorf_suw_f floorf_sw_f fmaf_s_f fmsf_s_f fnmaf_s_f fnmsf_s_f halt_10 hsh_12 hsw_12 : OpCodeId
  jarl_6 jarl_5 jarl_11 jmp_1 jmp_6 jr_6 jr_5 ldl_w_7 ldsr_9 ld_b_7 ld_b_14 ld_bu_7 : OpCodeId
  ld_bu_14 ld_dw_14 ld_h_7 ld_h_14 ld_hu_14 ld_hu_7 ld_w_7 ld_w_14 loop_7 mac_11 : OpCodeId
  macu_11 maddf_s_f maxf_d_f maxf_s_f minf_d_f minf_s_f mov_1 mov_2 mov_6 movea_6 : OpCodeId
  movhi_6 msubf_s_f mul_11 mul_12 mulf_d_f mulf_s_f mulh_1 mulh_2 mulhi_6 mulu_11 : OpCodeId
  mulu_12 negf_d_f negf_s_f nmaddf_s_f nmsubf_s_f nop_1 not_1 not1_8 not1_9 or_1 ori_6 : OpCodeId
  popsp_11 prepare_13 pushsp_11 recipf_d_f recipf_s_f reti_10 rie_1 rie_10 rotl_7 : OpCodeId
  roundf_sl_f roundf_sul_f roundf_suw_f roundf_sw_f rsqrtf_d_f rsqrtf_s_f sar_2 sar_9 : OpCodeId
  sar_11 sasf_9 satadd_1 satadd_2 satadd_11 satsub_1 satsub_11 satsubi_6 satsubr_1 : OpCodeId
  sbf_11 sch0l_9 sch0r_9 sch1l_9 sch1r_9 set1_8 set1_9 setf_9 shl_2 shl_9 shl_11 shr_2 : OpCodeId
  shr_9 shr_11 sld_b_4 sld_bu_4 sld_h_4 sld_hu_4 sld_w_4 snooze_10 sqrtf_d_f sqrtf_s_f : OpCodeId
  sst_b_4 sst_h_4 sst_w_4 stc_w_7 stsr_9 st_b_7 st_b_14 st_dw_14 st_h_7 st_h_14 st_w_7 : OpCodeId
  st_w_14 sub_1 subf_d_f subf_s_f subr_1 switch_1 sxb_1 sxh_1 synce_1 synci_1 syncm_1 : OpCodeId
  syncp_1 syscall_10 trap_10 trfsr_f trncf_dl_f trncf_dul_f trncf_duw_f trncf_dw_f : OpCodeId
  trncf_sl_f trncf_sul_f trncf_suw_f trncf_sw_f tst_1 tst1_8 tst1_9 xor_1 xori_6 zxb_1 : OpCodeId
  zxh_1 : OpCodeId
