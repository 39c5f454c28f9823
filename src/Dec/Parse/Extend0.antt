-- ===== src/Dec/Parse/Extend0.antt =====
-- The functions of the tables of op_parse_private.c, from extend_code_0000_00 to extend_code_0110_01 (src/cpu/cpu_dec).
use athrill_target_rh850f1x.Base.{Option, none, true, ◌==◌, bit_and, [], ◌∷◌}
use athrill_target_rh850f1x.Dec.CodeId.{
  bins_9, caxi_11, clr1_9, cmov_11, cmov_12, ctret_10, di_10, div_11, divh_11, divhu_11, divq_11,
  divqu_11, divu_11, ei_10, eiret_10, feret_10, halt_10, jarl_11, ldsr_9, mul_11, mul_12, mulu_11,
  mulu_12, not1_9, popsp_11, pushsp_11, reti_10, rie_10, rotl_7, sar_11, sar_9, sasf_9, set1_9,
  setf_9, shl_11, shl_9, shr_11, shr_9, snooze_10, stsr_9, syscall_10, trap_10, tst1_9,
}
use athrill_target_rh850f1x.Dec.Types.{Code, OperationCode, op, first_of, code_value}
use athrill_target_rh850f1x.Dec.Format.{format_10, format_11, format_12, format_7, format_9}

unfoldable pub op_parse_extend_code_0000_00 : Code → Option OperationCode
op_parse_extend_code_0000_00 code =
    let value = code_value code in
    first_of (
      (bit_and value 0x10 == 0x0, op setf_9 format_9)
      ∷ (bit_and value 0x10 == 0x10, op rie_10 format_10)
      ∷ [])

unfoldable pub op_parse_extend_code_0000_01 : Code → Option OperationCode
op_parse_extend_code_0000_01 code = first_of ((true, op ldsr_9 format_9) ∷ [])

unfoldable pub op_parse_extend_code_0000_10 : Code → Option OperationCode
op_parse_extend_code_0000_10 code = first_of ((true, op stsr_9 format_9) ∷ [])

unfoldable pub op_parse_extend_code_0000_11 : Code → Option OperationCode
op_parse_extend_code_0000_11 code = none

unfoldable pub op_parse_extend_code_0001_00 : Code → Option OperationCode
op_parse_extend_code_0001_00 code =
    let value = code_value code in
    first_of (
      (bit_and value 0x100000 == 0x100000, op bins_9 format_9)
      ∷ (bit_and value 0x120000 == 0x0, op shr_9 format_9)
      ∷ (bit_and value 0x120000 == 0x20000, op shr_11 format_11)
      ∷ [])

unfoldable pub op_parse_extend_code_0001_01 : Code → Option OperationCode
op_parse_extend_code_0001_01 code =
    let value = code_value code in
    first_of (
      (bit_and value 0x100000 == 0x100000, op bins_9 format_9)
      ∷ (bit_and value 0x120000 == 0x0, op sar_9 format_9)
      ∷ (bit_and value 0x120000 == 0x20000, op sar_11 format_11)
      ∷ [])

unfoldable pub op_parse_extend_code_0001_10 : Code → Option OperationCode
op_parse_extend_code_0001_10 code =
    let value = code_value code in
    first_of (
      (bit_and value 0x100000 == 0x100000, op bins_9 format_9)
      ∷ (bit_and value 0x160000 == 0x0, op shl_9 format_9)
      ∷ (bit_and value 0x160000 == 0x20000, op shl_11 format_11)
      ∷ (bit_and value 0x140000 == 0x40000, op rotl_7 format_7)
      ∷ [])

unfoldable pub op_parse_extend_code_0001_11 : Code → Option OperationCode
op_parse_extend_code_0001_11 code =
    let value = code_value code in
    first_of (
      (bit_and value 0x60000 == 0x0, op set1_9 format_9)
      ∷ (bit_and value 0x60000 == 0x20000, op not1_9 format_9)
      ∷ (bit_and value 0x60000 == 0x40000, op clr1_9 format_9)
      ∷ (bit_and value 0xe0000 == 0x60000, op tst1_9 format_9)
      ∷ (bit_and value 0xe0000 == 0xe0000, op caxi_11 format_11)
      ∷ [])

unfoldable pub op_parse_extend_code_0010_00 : Code → Option OperationCode
op_parse_extend_code_0010_00 code = first_of ((true, op trap_10 format_10) ∷ [])

unfoldable pub op_parse_extend_code_0010_01 : Code → Option OperationCode
op_parse_extend_code_0010_01 code =
    let value = code_value code in
    first_of (
      (bit_and value 0x800 == 0x0, op halt_10 format_10)
      ∷ (bit_and value 0x800 == 0x800, op snooze_10 format_10)
      ∷ [])

unfoldable pub op_parse_extend_code_0010_10 : Code → Option OperationCode
op_parse_extend_code_0010_10 code =
    let value = code_value code in
    first_of (
      (bit_and value 0xe0000 == 0x0, op reti_10 format_10)
      ∷ (bit_and value 0xe0000 == 0x80000, op eiret_10 format_10)
      ∷ (bit_and value 0xe0000 == 0xa0000, op feret_10 format_10)
      ∷ (bit_and value 0xe0000 == 0x40000, op ctret_10 format_10)
      ∷ [])

unfoldable pub op_parse_extend_code_0010_11 : Code → Option OperationCode
op_parse_extend_code_0010_11 code =
    let value = code_value code in
    first_of (
      (bit_and value 0xf800 == 0x0, op di_10 format_10)
      ∷ (bit_and value 0xf800 == 0x4000, op pushsp_11 format_11)
      ∷ (bit_and value 0xf800 == 0x6000, op popsp_11 format_11)
      ∷ (bit_and value 0xf800 == 0x8000, op ei_10 format_10)
      ∷ (bit_and value 0xf800 == 0xd000, op syscall_10 format_10)
      ∷ (bit_and value 0xf800 == 0xc000, op jarl_11 format_11)
      ∷ [])

unfoldable pub op_parse_extend_code_0011_00 : Code → Option OperationCode
op_parse_extend_code_0011_00 code = none

unfoldable pub op_parse_extend_code_0011_01 : Code → Option OperationCode
op_parse_extend_code_0011_01 code = none

unfoldable pub op_parse_extend_code_0011_10 : Code → Option OperationCode
op_parse_extend_code_0011_10 code = none

unfoldable pub op_parse_extend_code_0011_11 : Code → Option OperationCode
op_parse_extend_code_0011_11 code = none

unfoldable pub op_parse_extend_code_0100_00 : Code → Option OperationCode
op_parse_extend_code_0100_00 code = first_of ((true, op sasf_9 format_9) ∷ [])

unfoldable pub op_parse_extend_code_0100_01 : Code → Option OperationCode
op_parse_extend_code_0100_01 code =
    let value = code_value code in
    first_of (
      (bit_and value 0x20000 == 0x0, op mul_11 format_11)
      ∷ (bit_and value 0x20000 == 0x20000, op mulu_11 format_11)
      ∷ [])

unfoldable pub op_parse_extend_code_0100_10 : Code → Option OperationCode
op_parse_extend_code_0100_10 code =
    let value = code_value code in
    first_of (
      (bit_and value 0x20000 == 0x0, op mul_12 format_12)
      ∷ (bit_and value 0x20000 == 0x20000, op mulu_12 format_12)
      ∷ [])

unfoldable pub op_parse_extend_code_0100_11 : Code → Option OperationCode
op_parse_extend_code_0100_11 code =
    let value = code_value code in
    first_of (
      (bit_and value 0x20000 == 0x0, op mul_12 format_12)
      ∷ (bit_and value 0x20000 == 0x20000, op mulu_12 format_12)
      ∷ [])

unfoldable pub op_parse_extend_code_0101_00 : Code → Option OperationCode
op_parse_extend_code_0101_00 code =
    let value = code_value code in
    first_of (
      (bit_and value 0x20000 == 0x0, op divh_11 format_11)
      ∷ (bit_and value 0x20000 == 0x20000, op divhu_11 format_11)
      ∷ [])

unfoldable pub op_parse_extend_code_0101_01 : Code → Option OperationCode
op_parse_extend_code_0101_01 code = none

unfoldable pub op_parse_extend_code_0101_10 : Code → Option OperationCode
op_parse_extend_code_0101_10 code =
    let value = code_value code in
    first_of (
      (bit_and value 0x20000 == 0x0, op div_11 format_11)
      ∷ (bit_and value 0x20000 == 0x20000, op divu_11 format_11)
      ∷ [])

unfoldable pub op_parse_extend_code_0101_11 : Code → Option OperationCode
op_parse_extend_code_0101_11 code =
    let value = code_value code in
    first_of (
      (bit_and value 0x20000 == 0x0, op divq_11 format_11)
      ∷ (bit_and value 0x20000 == 0x20000, op divqu_11 format_11)
      ∷ [])

unfoldable pub op_parse_extend_code_0110_00 : Code → Option OperationCode
op_parse_extend_code_0110_00 code = first_of ((true, op cmov_12 format_12) ∷ [])

unfoldable pub op_parse_extend_code_0110_01 : Code → Option OperationCode
op_parse_extend_code_0110_01 code = first_of ((true, op cmov_11 format_11) ∷ [])
