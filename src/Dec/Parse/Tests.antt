-- ===== src/Dec/Parse/Tests.antt =====
-- Parsed instructions, and the decoder's theorems at concrete code words.
use athrill_target_rh850f1x.Base.{◌<◌, ◌≡◌, ◌≢◌, refl, some, arith, ◌==◌, ◌&&◌}
use athrill_target_rh850f1x.Dec.Format.{
  OpCodeFormatType1, OpCodeFormatType2, format_1, format_2, format_f, unknown, zeros,
}
use athrill_target_rh850f1x.Dec.CodeId.{add_1, add_2, addf_s_f}
use athrill_target_rh850f1x.Dec.CodeFormat.{code_format}
use athrill_target_rh850f1x.Dec.Types.{Code, op, first_of}
use athrill_target_rh850f1x.Dec.Decode.{op_decoder}
use athrill_target_rh850f1x.Dec.Decode.Rebuild.{Rebuilds, op_decoder-Rebuilds}
use athrill_target_rh850f1x.Dec.Parse.{
  is_extend, base_index, extend_index, parse_code, decode_op, op_parse,
}
use athrill_target_rh850f1x.Dec.Parse.Index.{table_index}
use athrill_target_rh850f1x.Dec.Parse.Format.{op_parse_format}
use athrill_target_rh850f1x.Dec.Parse.Assemble.{
  add_reg, add_imm, assembled, op_parse-RegReg, op_parse-ImmReg,
}
use athrill_target_rh850f1x.Dec.Parse.Extend1.{op_parse_extend_code_1000_11}

-- ADD r3, r4
abbrev add_3_4 : OpCodeFormatType1
add_3_4 = record { opcode = 14; reg1 = 3; reg2 = 4 }

-- ADD 31, r4
abbrev add_31_4 : OpCodeFormatType2
add_31_4 = record { opcode = 18; imm = 31; reg2 = 4 }

-- ADDF.S r3, r4, r5
abbrev addf_3_4_5 : Code
addf_3_4_5 = record { w0 = 0x27e3; w1 = 0x2c60; w2 = 0 }

addf_parses : (op_parse addf_3_4_5 zeros).0 ≡ some (op addf_s_f format_f)
unfolding op_parse decode_op parse_code is_extend extend_index op_parse_extend_code_1000_11 first_of
addf_parses = refl

op_parse_format_example :
    (format_f ≡ code_format addf_s_f)
    × (code_format addf_s_f ≢ unknown)
    × ((op_parse addf_3_4_5 zeros).1 ≡ op_decoder (code_format addf_s_f) addf_3_4_5 zeros)
op_parse_format_example = op_parse_format addf_3_4_5 zeros (op addf_s_f format_f) addf_parses

op_parse-RegReg_example :
    op_parse (assembled 4 14 3 0x1234 0) zeros
    ≡ (some (op add_1 format_1), record zeros { type1 = add_3_4 })
op_parse-RegReg_example =
    op_parse-RegReg add_3_4 0x1234 0 zeros add_reg (omega arith) (omega arith) (omega arith)
      (omega arith)

op_parse-ImmReg_example :
    op_parse (assembled 4 18 31 0x1234 0) zeros
    ≡ (some (op add_2 format_2), record zeros { type2 = add_31_4 })
op_parse-ImmReg_example =
    op_parse-ImmReg add_31_4 0x1234 0 zeros add_imm (omega arith) (omega arith) (omega arith)

table_index_example :
    (is_extend addf_3_4_5 ≡ (63 == 63 && 0 == 0))
    × (base_index addf_3_4_5 ≡ 63)
    × (base_index addf_3_4_5 < 64)
    × (extend_index addf_3_4_5 ≡ 35)
    × (extend_index addf_3_4_5 < 64)
table_index_example = table_index addf_3_4_5 (omega arith, omega arith, omega arith)

op_decoder-Rebuilds_example : Rebuilds format_f addf_3_4_5 (op_decoder format_f addf_3_4_5 zeros)
op_decoder-Rebuilds_example =
    op_decoder-Rebuilds format_f addf_3_4_5 zeros (omega arith, omega arith, omega arith)
