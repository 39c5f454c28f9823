-- ===== src/Dec/CodeFormat.antt =====
-- The format that the suffix of an operation code's name tells (src/cpu/cpu_dec/op_codeid.h), which
-- is the format whose operands its function of op_exec_table reads.
use athrill_target_rh850f1x.Dec.CodeId.{
  OpCodeId, add_1, add_2, addi_6, adf_11, and_1, andi_6, bins_9, bsh_12, bsw_12, bcond_3, bcond_7,
  callt_2, caxi_11, clr1_8, clr1_9, cmov_12, cmov_11, cmp_1, cmp_2, ctret_10, dbtrap_1, di_10,
  dispose_13, div_11, divh_1, divh_11, divhu_11, divq_11, divqu_11, divu_11, ei_10, eiret_10,
  feret_10, fetrap_1, halt_10, hsh_12, hsw_12, jarl_6, jarl_5, jarl_11, jmp_1, jmp_6, jr_6, jr_5,
  ldl_w_7, ldsr_9, ld_b_7, ld_b_14, ld_bu_7, ld_bu_14, ld_dw_14, ld_h_7, ld_h_14, ld_hu_14, ld_hu_7,
  ld_w_7, ld_w_14, loop_7, mac_11, macu_11, mov_1, mov_2, mov_6, movea_6, movhi_6, mul_11, mul_12,
  mulh_1, mulh_2, mulhi_6, mulu_11, mulu_12, nop_1, not_1, not1_8, not1_9, or_1, ori_6, popsp_11,
  prepare_13, pushsp_11, reti_10, rie_1, rie_10, rotl_7, sar_2, sar_9, sar_11, sasf_9, satadd_1,
  satadd_2, satadd_11, satsub_1, satsub_11, satsubi_6, satsubr_1, sbf_11, sch0l_9, sch0r_9, sch1l_9,
  sch1r_9, set1_8, set1_9, setf_9, shl_2, shl_9, shl_11, shr_2, shr_9, shr_11, sld_b_4, sld_bu_4,
  sld_h_4, sld_hu_4, sld_w_4, snooze_10, sst_b_4, sst_h_4, sst_w_4, stc_w_7, stsr_9, st_b_7,
  st_b_14, st_dw_14, st_h_7, st_h_14, st_w_7, st_w_14, sub_1, subr_1, switch_1, sxb_1, sxh_1,
  synce_1, synci_1, syncm_1, syncp_1, syscall_10, trap_10, tst_1, tst1_8, tst1_9, xor_1, xori_6,
  zxb_1, zxh_1,
}
use athrill_target_rh850f1x.Dec.Format.{
  OpCodeFormatId, format_1, format_10, format_11, format_12, format_13, format_14, format_2,
  format_3, format_4, format_5, format_6, format_7, format_8, format_9, format_f,
}

unfoldable pub code_format : OpCodeId → OpCodeFormatId
code_format add_1 = format_1
code_format add_2 = format_2
code_format addi_6 = format_6
code_format adf_11 = format_11
code_format and_1 = format_1
code_format andi_6 = format_6
code_format bins_9 = format_9
code_format bsh_12 = format_12
code_format bsw_12 = format_12
code_format bcond_3 = format_3
code_format bcond_7 = format_7
code_format callt_2 = format_2
code_format caxi_11 = format_11
code_format clr1_8 = format_8
code_format clr1_9 = format_9
code_format cmov_12 = format_12
code_format cmov_11 = format_11
code_format cmp_1 = format_1
code_format cmp_2 = format_2
code_format ctret_10 = format_10
code_format dbtrap_1 = format_1
code_format di_10 = format_10
code_format dispose_13 = format_13
code_format div_11 = format_11
code_format divh_1 = format_1
code_format divh_11 = format_11
code_format divhu_11 = format_11
code_format divq_11 = format_11
code_format divqu_11 = format_11
code_format divu_11 = format_11
code_format ei_10 = format_10
code_format eiret_10 = format_10
code_format feret_10 = format_10
code_format fetrap_1 = format_1
code_format halt_10 = format_10
code_format hsh_12 = format_12
code_format hsw_12 = format_12
code_format jarl_6 = format_6
code_format jarl_5 = format_5
code_format jarl_11 = format_11
code_format jmp_1 = format_1
code_format jmp_6 = format_6
code_format jr_6 = format_6
code_format jr_5 = format_5
code_format ldl_w_7 = format_7
code_format ldsr_9 = format_9
code_format ld_b_7 = format_7
code_format ld_b_14 = format_14
code_format ld_bu_7 = format_7
code_format ld_bu_14 = format_14
code_format ld_dw_14 = format_14
code_format ld_h_7 = format_7
code_format ld_h_14 = format_14
code_format ld_hu_14 = format_14
code_format ld_hu_7 = format_7
code_format ld_w_7 = format_7
code_format ld_w_14 = format_14
code_format loop_7 = format_7
code_format mac_11 = format_11
code_format macu_11 = format_11
code_format mov_1 = format_1
code_format mov_2 = format_2
code_format mov_6 = format_6
code_format movea_6 = format_6
code_format movhi_6 = format_6
code_format mul_11 = format_11
code_format mul_12 = format_12
code_format mulh_1 = format_1
code_format mulh_2 = format_2
code_format mulhi_6 = format_6
code_format mulu_11 = format_11
code_format mulu_12 = format_12
code_format nop_1 = format_1
code_format not_1 = format_1
code_format not1_8 = format_8
code_format not1_9 = format_9
code_format or_1 = format_1
code_format ori_6 = format_6
code_format popsp_11 = format_11
code_format prepare_13 = format_13
code_format pushsp_11 = format_11
code_format reti_10 = format_10
code_format rie_1 = format_1
code_format rie_10 = format_10
code_format rotl_7 = format_7
code_format sar_2 = format_2
code_format sar_9 = format_9
code_format sar_11 = format_11
code_format sasf_9 = format_9
code_format satadd_1 = format_1
code_format satadd_2 = format_2
code_format satadd_11 = format_11
code_format satsub_1 = format_1
code_format satsub_11 = format_11
code_format satsubi_6 = format_6
code_format satsubr_1 = format_1
code_format sbf_11 = format_11
code_format sch0l_9 = format_9
code_format sch0r_9 = format_9
code_format sch1l_9 = format_9
code_format sch1r_9 = format_9
code_format set1_8 = format_8
code_format set1_9 = format_9
code_format setf_9 = format_9
code_format shl_2 = format_2
code_format shl_9 = format_9
code_format shl_11 = format_11
code_format shr_2 = format_2
code_format shr_9 = format_9
code_format shr_11 = format_11
code_format sld_b_4 = format_4
code_format sld_bu_4 = format_4
code_format sld_h_4 = format_4
code_format sld_hu_4 = format_4
code_format sld_w_4 = format_4
code_format snooze_10 = format_10
code_format sst_b_4 = format_4
code_format sst_h_4 = format_4
code_format sst_w_4 = format_4
code_format stc_w_7 = format_7
code_format stsr_9 = format_9
code_format st_b_7 = format_7
code_format st_b_14 = format_14
code_format st_dw_14 = format_14
code_format st_h_7 = format_7
code_format st_h_14 = format_14
code_format st_w_7 = format_7
code_format st_w_14 = format_14
code_format sub_1 = format_1
code_format subr_1 = format_1
code_format switch_1 = format_1
code_format sxb_1 = format_1
code_format sxh_1 = format_1
code_format synce_1 = format_1
code_format synci_1 = format_1
code_format syncm_1 = format_1
code_format syncp_1 = format_1
code_format syscall_10 = format_10
code_format trap_10 = format_10
code_format tst_1 = format_1
code_format tst1_8 = format_8
code_format tst1_9 = format_9
code_format xor_1 = format_1
code_format xori_6 = format_6
code_format zxb_1 = format_1
code_format zxh_1 = format_1
code_format _ = format_f
