-- ===== src/Dec/Parse/Base2.antt =====
-- The functions of the tables of op_parse_private.c, from base_code_1111_10 to base_code_1111_11 (src/cpu/cpu_dec).
use athrill_target_rh850f1x.Base.{Option, not, ◌==◌, ◌&&◌, bit_and, [], ◌∷◌}
use athrill_target_rh850f1x.Dec.CodeId.{bcond_7, clr1_8, ld_hu_7, not1_8, set1_8, tst1_8}
use athrill_target_rh850f1x.Dec.Types.{Code, OperationCode, op, first_of, code_value, get_reg2}
use athrill_target_rh850f1x.Dec.Format.{format_7, format_8}

unfoldable pub op_parse_base_code_1111_10 : Code → Option OperationCode
op_parse_base_code_1111_10 code =
    let value = code_value code in
    first_of (
      (bit_and value 0xc000 == 0x0, op set1_8 format_8)
      ∷ (bit_and value 0xc000 == 0x4000, op not1_8 format_8)
      ∷ (bit_and value 0xc000 == 0x8000, op clr1_8 format_8)
      ∷ (bit_and value 0xc000 == 0xc000, op tst1_8 format_8)
      ∷ [])

unfoldable pub op_parse_base_code_1111_11 : Code → Option OperationCode
op_parse_base_code_1111_11 code =
    let reg2 = get_reg2 code.w0 in
    let value = code_value code in
    first_of (
      (not (reg2 == 0) && bit_and value 0x10000 == 0x10000, op ld_hu_7 format_7)
      ∷ (reg2 == 0 && bit_and value 0x10000 == 0x10000, op bcond_7 format_7)
      ∷ [])
