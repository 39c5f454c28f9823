-- ===== src/Dec/Parse/Base0.antt =====
-- The functions of the tables of op_parse_private.c, from base_code_0000_00 to base_code_1000_10 (src/cpu/cpu_dec).
use athrill_target_rh850f1x.Base.{Option, true, not, leb, ◌==◌, ◌&&◌, bit_and, [], ◌∷◌}
use athrill_target_rh850f1x.Dec.CodeId.{
  add_1, add_2, and_1, callt_2, cmp_1, cmp_2, dbtrap_1, divh_1, fetrap_1, jarl_6, jmp_1, jr_6,
  mov_1, mov_2, mulh_1, mulh_2, nop_1, not_1, or_1, rie_1, sar_2, satadd_1, satadd_2, satsub_1,
  satsubr_1, shl_2, shr_2, sld_b_4, sld_bu_4, sld_h_4, sld_hu_4, sst_b_4, sub_1, subr_1, switch_1,
  sxb_1, sxh_1, synce_1, synci_1, syncm_1, syncp_1, tst_1, xor_1, zxb_1, zxh_1,
}
use athrill_target_rh850f1x.Dec.Types.{
  Code, OperationCode, op, first_of, code_value, get_reg1, get_reg2,
}
use athrill_target_rh850f1x.Dec.Format.{format_1, format_2, format_4, format_6}

unfoldable pub op_parse_base_code_0000_00 : Code → Option OperationCode
op_parse_base_code_0000_00 code =
    let reg1 = get_reg1 code.w0 in
    let reg2 = get_reg2 code.w0 in
    first_of (
      (reg1 == 0 && reg2 == 0, op nop_1 format_1)
      ∷ (reg1 == 31 && reg2 == 0, op syncp_1 format_1)
      ∷ (reg1 == 30 && reg2 == 0, op syncm_1 format_1)
      ∷ (reg1 == 29 && reg2 == 0, op synce_1 format_1)
      ∷ (reg1 == 28 && reg2 == 0, op synci_1 format_1)
      ∷ (leb 1 reg1 && leb reg1 27 && reg2 == 0, op mov_1 format_1)
      ∷ (reg1 == 0 && not (reg2 == 0), op mov_1 format_1)
      ∷ (not (reg1 == 0) && not (reg2 == 0), op mov_1 format_1)
      ∷ [])

unfoldable pub op_parse_base_code_0000_01 : Code → Option OperationCode
op_parse_base_code_0000_01 code = first_of ((true, op not_1 format_1) ∷ [])

unfoldable pub op_parse_base_code_0000_10 : Code → Option OperationCode
op_parse_base_code_0000_10 code =
    let reg1 = get_reg1 code.w0 in
    let reg2 = get_reg2 code.w0 in
    first_of (
      (reg1 == 0 && reg2 == 0, op rie_1 format_1)
      ∷ (not (reg1 == 0) && reg2 == 0, op switch_1 format_1)
      ∷ (reg1 == 0 && reg2 == 31, op dbtrap_1 format_1)
      ∷ (reg1 == 0 && leb 1 reg2 && leb reg2 15, op fetrap_1 format_1)
      ∷ (not (reg1 == 0) && not (reg2 == 0), op divh_1 format_1)
      ∷ [])

unfoldable pub op_parse_base_code_0000_11 : Code → Option OperationCode
op_parse_base_code_0000_11 code =
    let reg2 = get_reg2 code.w0 in
    let value = code_value code in
    first_of (
      (reg2 == 0, op jmp_1 format_1)
      ∷ (not (reg2 == 0) && bit_and value 0x10 == 0x0, op sld_bu_4 format_4)
      ∷ (not (reg2 == 0) && bit_and value 0x10 == 0x10, op sld_hu_4 format_4)
      ∷ [])

unfoldable pub op_parse_base_code_0001_00 : Code → Option OperationCode
op_parse_base_code_0001_00 code =
    let reg2 = get_reg2 code.w0 in
    first_of ((not (reg2 == 0), op satsubr_1 format_1) ∷ (reg2 == 0, op zxb_1 format_1) ∷ [])

unfoldable pub op_parse_base_code_0001_01 : Code → Option OperationCode
op_parse_base_code_0001_01 code =
    let reg2 = get_reg2 code.w0 in
    first_of ((not (reg2 == 0), op satsub_1 format_1) ∷ (reg2 == 0, op sxb_1 format_1) ∷ [])

unfoldable pub op_parse_base_code_0001_10 : Code → Option OperationCode
op_parse_base_code_0001_10 code =
    let reg2 = get_reg2 code.w0 in
    first_of ((not (reg2 == 0), op satadd_1 format_1) ∷ (reg2 == 0, op zxh_1 format_1) ∷ [])

unfoldable pub op_parse_base_code_0001_11 : Code → Option OperationCode
op_parse_base_code_0001_11 code =
    let reg2 = get_reg2 code.w0 in
    first_of ((not (reg2 == 0), op mulh_1 format_1) ∷ (reg2 == 0, op sxh_1 format_1) ∷ [])

unfoldable pub op_parse_base_code_0010_00 : Code → Option OperationCode
op_parse_base_code_0010_00 code = first_of ((true, op or_1 format_1) ∷ [])

unfoldable pub op_parse_base_code_0010_01 : Code → Option OperationCode
op_parse_base_code_0010_01 code = first_of ((true, op xor_1 format_1) ∷ [])

unfoldable pub op_parse_base_code_0010_10 : Code → Option OperationCode
op_parse_base_code_0010_10 code = first_of ((true, op and_1 format_1) ∷ [])

unfoldable pub op_parse_base_code_0010_11 : Code → Option OperationCode
op_parse_base_code_0010_11 code = first_of ((true, op tst_1 format_1) ∷ [])

unfoldable pub op_parse_base_code_0011_00 : Code → Option OperationCode
op_parse_base_code_0011_00 code = first_of ((true, op subr_1 format_1) ∷ [])

unfoldable pub op_parse_base_code_0011_01 : Code → Option OperationCode
op_parse_base_code_0011_01 code = first_of ((true, op sub_1 format_1) ∷ [])

unfoldable pub op_parse_base_code_0011_10 : Code → Option OperationCode
op_parse_base_code_0011_10 code = first_of ((true, op add_1 format_1) ∷ [])

unfoldable pub op_parse_base_code_0011_11 : Code → Option OperationCode
op_parse_base_code_0011_11 code = first_of ((true, op cmp_1 format_1) ∷ [])

unfoldable pub op_parse_base_code_0100_00 : Code → Option OperationCode
op_parse_base_code_0100_00 code =
    let reg2 = get_reg2 code.w0 in
    first_of ((not (reg2 == 0), op mov_2 format_2) ∷ (reg2 == 0, op callt_2 format_2) ∷ [])

unfoldable pub op_parse_base_code_0100_01 : Code → Option OperationCode
op_parse_base_code_0100_01 code =
    let reg2 = get_reg2 code.w0 in
    first_of ((not (reg2 == 0), op satadd_2 format_2) ∷ (reg2 == 0, op callt_2 format_2) ∷ [])

unfoldable pub op_parse_base_code_0100_10 : Code → Option OperationCode
op_parse_base_code_0100_10 code = first_of ((true, op add_2 format_2) ∷ [])

unfoldable pub op_parse_base_code_0100_11 : Code → Option OperationCode
op_parse_base_code_0100_11 code = first_of ((true, op cmp_2 format_2) ∷ [])

unfoldable pub op_parse_base_code_0101_00 : Code → Option OperationCode
op_parse_base_code_0101_00 code = first_of ((true, op shr_2 format_2) ∷ [])

unfoldable pub op_parse_base_code_0101_01 : Code → Option OperationCode
op_parse_base_code_0101_01 code = first_of ((true, op sar_2 format_2) ∷ [])

unfoldable pub op_parse_base_code_0101_10 : Code → Option OperationCode
op_parse_base_code_0101_10 code = first_of ((true, op shl_2 format_2) ∷ [])

unfoldable pub op_parse_base_code_0101_11 : Code → Option OperationCode
op_parse_base_code_0101_11 code =
    let reg1 = get_reg1 code.w0 in
    let reg2 = get_reg2 code.w0 in
    first_of (
      (not (reg2 == 0), op mulh_2 format_2)
      ∷ (reg1 == 0 && reg2 == 0, op jr_6 format_6)
      ∷ (not (reg1 == 0) && reg2 == 0, op jarl_6 format_6)
      ∷ [])

unfoldable pub op_parse_base_code_0110_00 : Code → Option OperationCode
op_parse_base_code_0110_00 code = first_of ((true, op sld_b_4 format_4) ∷ [])

unfoldable pub op_parse_base_code_0110_01 : Code → Option OperationCode
op_parse_base_code_0110_01 code = first_of ((true, op sld_b_4 format_4) ∷ [])

unfoldable pub op_parse_base_code_0110_10 : Code → Option OperationCode
op_parse_base_code_0110_10 code = first_of ((true, op sld_b_4 format_4) ∷ [])

unfoldable pub op_parse_base_code_0110_11 : Code → Option OperationCode
op_parse_base_code_0110_11 code = first_of ((true, op sld_b_4 format_4) ∷ [])

unfoldable pub op_parse_base_code_0111_00 : Code → Option OperationCode
op_parse_base_code_0111_00 code = first_of ((true, op sst_b_4 format_4) ∷ [])

unfoldable pub op_parse_base_code_0111_01 : Code → Option OperationCode
op_parse_base_code_0111_01 code = first_of ((true, op sst_b_4 format_4) ∷ [])

unfoldable pub op_parse_base_code_0111_10 : Code → Option OperationCode
op_parse_base_code_0111_10 code = first_of ((true, op sst_b_4 format_4) ∷ [])

unfoldable pub op_parse_base_code_0111_11 : Code → Option OperationCode
op_parse_base_code_0111_11 code = first_of ((true, op sst_b_4 format_4) ∷ [])

unfoldable pub op_parse_base_code_1000_00 : Code → Option OperationCode
op_parse_base_code_1000_00 code = first_of ((true, op sld_h_4 format_4) ∷ [])

unfoldable pub op_parse_base_code_1000_01 : Code → Option OperationCode
op_parse_base_code_1000_01 code = first_of ((true, op sld_h_4 format_4) ∷ [])

unfoldable pub op_parse_base_code_1000_10 : Code → Option OperationCode
op_parse_base_code_1000_10 code = first_of ((true, op sld_h_4 format_4) ∷ [])
