-- ===== src/Dec/Parse/Base1.antt =====
-- The functions of the tables of op_parse_private.c, from base_code_1000_11 to base_code_1111_01 (src/cpu/cpu_dec).
use athrill_target_rh850f1x.Base.{Option, true, not, ◌==◌, ◌&&◌, bit_and, [], ◌∷◌}
use athrill_target_rh850f1x.Dec.CodeId.{
  addi_6, andi_6, bcond_3, dispose_13, jarl_5, jmp_6, jr_5, ld_b_14, ld_b_7, ld_bu_14, ld_bu_7,
  ld_dw_14, ld_h_14, ld_h_7, ld_hu_14, ld_w_14, ld_w_7, loop_7, mov_6, movea_6, movhi_6, mulhi_6,
  ori_6, prepare_13, satsubi_6, sld_h_4, sld_w_4, sst_h_4, sst_w_4, st_b_14, st_b_7, st_dw_14,
  st_h_14, st_h_7, st_w_14, st_w_7, xori_6,
}
use athrill_target_rh850f1x.Dec.Types.{Code, OperationCode, op, first_of, code_value, get_reg2}
use athrill_target_rh850f1x.Dec.Format.{
  format_13, format_14, format_3, format_4, format_5, format_6, format_7,
}

unfoldable pub op_parse_base_code_1000_11 : Code → Option OperationCode
op_parse_base_code_1000_11 code = first_of ((true, op sld_h_4 format_4) ∷ [])

unfoldable pub op_parse_base_code_1001_00 : Code → Option OperationCode
op_parse_base_code_1001_00 code = first_of ((true, op sst_h_4 format_4) ∷ [])

unfoldable pub op_parse_base_code_1001_01 : Code → Option OperationCode
op_parse_base_code_1001_01 code = first_of ((true, op sst_h_4 format_4) ∷ [])

unfoldable pub op_parse_base_code_1001_10 : Code → Option OperationCode
op_parse_base_code_1001_10 code = first_of ((true, op sst_h_4 format_4) ∷ [])

unfoldable pub op_parse_base_code_1001_11 : Code → Option OperationCode
op_parse_base_code_1001_11 code = first_of ((true, op sst_h_4 format_4) ∷ [])

unfoldable pub op_parse_base_code_1010_00 : Code → Option OperationCode
op_parse_base_code_1010_00 code =
    let value = code_value code in
    first_of (
      (bit_and value 0x1 == 0x0, op sld_w_4 format_4)
      ∷ (bit_and value 0x1 == 0x1, op sst_w_4 format_4)
      ∷ [])

unfoldable pub op_parse_base_code_1010_01 : Code → Option OperationCode
op_parse_base_code_1010_01 code =
    let value = code_value code in
    first_of (
      (bit_and value 0x1 == 0x0, op sld_w_4 format_4)
      ∷ (bit_and value 0x1 == 0x1, op sst_w_4 format_4)
      ∷ [])

unfoldable pub op_parse_base_code_1010_10 : Code → Option OperationCode
op_parse_base_code_1010_10 code =
    let value = code_value code in
    first_of (
      (bit_and value 0x1 == 0x0, op sld_w_4 format_4)
      ∷ (bit_and value 0x1 == 0x1, op sst_w_4 format_4)
      ∷ [])

unfoldable pub op_parse_base_code_1010_11 : Code → Option OperationCode
op_parse_base_code_1010_11 code =
    let value = code_value code in
    first_of (
      (bit_and value 0x1 == 0x0, op sld_w_4 format_4)
      ∷ (bit_and value 0x1 == 0x1, op sst_w_4 format_4)
      ∷ [])

unfoldable pub op_parse_base_code_1011_00 : Code → Option OperationCode
op_parse_base_code_1011_00 code = first_of ((true, op bcond_3 format_3) ∷ [])

unfoldable pub op_parse_base_code_1011_01 : Code → Option OperationCode
op_parse_base_code_1011_01 code = first_of ((true, op bcond_3 format_3) ∷ [])

unfoldable pub op_parse_base_code_1011_10 : Code → Option OperationCode
op_parse_base_code_1011_10 code = first_of ((true, op bcond_3 format_3) ∷ [])

unfoldable pub op_parse_base_code_1011_11 : Code → Option OperationCode
op_parse_base_code_1011_11 code = first_of ((true, op bcond_3 format_3) ∷ [])

unfoldable pub op_parse_base_code_1100_00 : Code → Option OperationCode
op_parse_base_code_1100_00 code = first_of ((true, op addi_6 format_6) ∷ [])

unfoldable pub op_parse_base_code_1100_01 : Code → Option OperationCode
op_parse_base_code_1100_01 code =
    let reg2 = get_reg2 code.w0 in
    first_of ((not (reg2 == 0), op movea_6 format_6) ∷ (reg2 == 0, op mov_6 format_6) ∷ [])

unfoldable pub op_parse_base_code_1100_10 : Code → Option OperationCode
op_parse_base_code_1100_10 code =
    let reg2 = get_reg2 code.w0 in
    first_of ((not (reg2 == 0), op movhi_6 format_6) ∷ (reg2 == 0, op dispose_13 format_13) ∷ [])

unfoldable pub op_parse_base_code_1100_11 : Code → Option OperationCode
op_parse_base_code_1100_11 code =
    let reg2 = get_reg2 code.w0 in
    first_of ((not (reg2 == 0), op satsubi_6 format_6) ∷ (reg2 == 0, op dispose_13 format_13) ∷ [])

unfoldable pub op_parse_base_code_1101_00 : Code → Option OperationCode
op_parse_base_code_1101_00 code = first_of ((true, op ori_6 format_6) ∷ [])

unfoldable pub op_parse_base_code_1101_01 : Code → Option OperationCode
op_parse_base_code_1101_01 code = first_of ((true, op xori_6 format_6) ∷ [])

unfoldable pub op_parse_base_code_1101_10 : Code → Option OperationCode
op_parse_base_code_1101_10 code = first_of ((true, op andi_6 format_6) ∷ [])

unfoldable pub op_parse_base_code_1101_11 : Code → Option OperationCode
op_parse_base_code_1101_11 code =
    let reg2 = get_reg2 code.w0 in
    let value = code_value code in
    first_of (
      (not (reg2 == 0), op mulhi_6 format_6)
      ∷ (reg2 == 0 && bit_and value 0x10000 == 0x0, op jmp_6 format_6)
      ∷ (reg2 == 0 && bit_and value 0x10000 == 0x10000, op loop_7 format_7)
      ∷ [])

unfoldable pub op_parse_base_code_1110_00 : Code → Option OperationCode
op_parse_base_code_1110_00 code = first_of ((true, op ld_b_7 format_7) ∷ [])

unfoldable pub op_parse_base_code_1110_01 : Code → Option OperationCode
op_parse_base_code_1110_01 code =
    let value = code_value code in
    first_of (
      (bit_and value 0x10000 == 0x0, op ld_h_7 format_7)
      ∷ (bit_and value 0x10000 == 0x10000, op ld_w_7 format_7)
      ∷ [])

unfoldable pub op_parse_base_code_1110_10 : Code → Option OperationCode
op_parse_base_code_1110_10 code = first_of ((true, op st_b_7 format_7) ∷ [])

unfoldable pub op_parse_base_code_1110_11 : Code → Option OperationCode
op_parse_base_code_1110_11 code =
    let value = code_value code in
    first_of (
      (bit_and value 0x10000 == 0x0, op st_h_7 format_7)
      ∷ (bit_and value 0x10000 == 0x10000, op st_w_7 format_7)
      ∷ [])

unfoldable pub op_parse_base_code_1111_00 : Code → Option OperationCode
op_parse_base_code_1111_00 code =
    let reg2 = get_reg2 code.w0 in
    let value = code_value code in
    first_of (
      (reg2 == 0 && bit_and value 0xf0020 == 0x50000, op ld_b_14 format_14)
      ∷ (reg2 == 0 && bit_and value 0xf0020 == 0x70000, op ld_h_14 format_14)
      ∷ (reg2 == 0 && bit_and value 0xf0020 == 0x90000, op ld_w_14 format_14)
      ∷ (reg2 == 0 && bit_and value 0xf0020 == 0xd0000, op st_b_14 format_14)
      ∷ (reg2 == 0 && bit_and value 0xf0020 == 0xf0000, op st_w_14 format_14)
      ∷ (reg2 == 0 && bit_and value 0x10000 == 0x0, op jr_5 format_5)
      ∷ (not (reg2 == 0) && bit_and value 0x10000 == 0x0, op jarl_5 format_5)
      ∷ (not (reg2 == 0) && bit_and value 0x10000 == 0x10000, op ld_bu_7 format_7)
      ∷ (reg2 == 0 && bit_and value 0x70000 == 0x30000, op prepare_13 format_13)
      ∷ (reg2 == 0 && bit_and value 0xf0000 == 0x10000, op prepare_13 format_13)
      ∷ [])

unfoldable pub op_parse_base_code_1111_01 : Code → Option OperationCode
op_parse_base_code_1111_01 code =
    let reg2 = get_reg2 code.w0 in
    let value = code_value code in
    first_of (
      (reg2 == 0 && bit_and value 0xf0020 == 0x50020, op ld_bu_14 format_14)
      ∷ (reg2 == 0 && bit_and value 0xf0020 == 0x70020, op ld_hu_14 format_14)
      ∷ (reg2 == 0 && bit_and value 0xf0020 == 0xd0020, op st_h_14 format_14)
      ∷ (reg2 == 0 && bit_and value 0xf0020 == 0x90020, op ld_dw_14 format_14)
      ∷ (reg2 == 0 && bit_and value 0xf0020 == 0xf0020, op st_dw_14 format_14)
      ∷ (reg2 == 0 && bit_and value 0x10000 == 0x0, op jr_5 format_5)
      ∷ (not (reg2 == 0) && bit_and value 0x10000 == 0x0, op jarl_5 format_5)
      ∷ (not (reg2 == 0) && bit_and value 0x10000 == 0x10000, op ld_bu_7 format_7)
      ∷ (reg2 == 0 && bit_and value 0x70000 == 0x30000, op prepare_13 format_13)
      ∷ (reg2 == 0 && bit_and value 0xf0000 == 0x10000, op prepare_13 format_13)
      ∷ [])
