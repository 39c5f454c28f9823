-- ===== src/Dec/Parse/Extend2.antt =====
-- The functions of the tables of op_parse_private.c, from extend_code_1010_01 to extend_code_1111_11 (src/cpu/cpu_dec).
use athrill_target_rh850f1x.Base.{Option, none, true, [], ◌∷◌}
use athrill_target_rh850f1x.Dec.CodeId.{maddf_s_f, msubf_s_f, nmaddf_s_f, nmsubf_s_f}
use athrill_target_rh850f1x.Dec.Types.{Code, OperationCode, op, first_of}
use athrill_target_rh850f1x.Dec.Format.{format_f}

unfoldable pub op_parse_extend_code_1010_01 : Code → Option OperationCode
op_parse_extend_code_1010_01 code = first_of ((true, op msubf_s_f format_f) ∷ [])

unfoldable pub op_parse_extend_code_1010_10 : Code → Option OperationCode
op_parse_extend_code_1010_10 code = first_of ((true, op nmaddf_s_f format_f) ∷ [])

unfoldable pub op_parse_extend_code_1010_11 : Code → Option OperationCode
op_parse_extend_code_1010_11 code = first_of ((true, op nmsubf_s_f format_f) ∷ [])

unfoldable pub op_parse_extend_code_1011_00 : Code → Option OperationCode
op_parse_extend_code_1011_00 code = first_of ((true, op maddf_s_f format_f) ∷ [])

unfoldable pub op_parse_extend_code_1011_01 : Code → Option OperationCode
op_parse_extend_code_1011_01 code = first_of ((true, op msubf_s_f format_f) ∷ [])

unfoldable pub op_parse_extend_code_1011_10 : Code → Option OperationCode
op_parse_extend_code_1011_10 code = first_of ((true, op nmaddf_s_f format_f) ∷ [])

unfoldable pub op_parse_extend_code_1011_11 : Code → Option OperationCode
op_parse_extend_code_1011_11 code = first_of ((true, op nmsubf_s_f format_f) ∷ [])

unfoldable pub op_parse_extend_code_1100_00 : Code → Option OperationCode
op_parse_extend_code_1100_00 code = none

unfoldable pub op_parse_extend_code_1100_01 : Code → Option OperationCode
op_parse_extend_code_1100_01 code = none

unfoldable pub op_parse_extend_code_1100_10 : Code → Option OperationCode
op_parse_extend_code_1100_10 code = none

unfoldable pub op_parse_extend_code_1100_11 : Code → Option OperationCode
op_parse_extend_code_1100_11 code = none

unfoldable pub op_parse_extend_code_1101_00 : Code → Option OperationCode
op_parse_extend_code_1101_00 code = none

unfoldable pub op_parse_extend_code_1101_01 : Code → Option OperationCode
op_parse_extend_code_1101_01 code = none

unfoldable pub op_parse_extend_code_1101_10 : Code → Option OperationCode
op_parse_extend_code_1101_10 code = none

unfoldable pub op_parse_extend_code_1101_11 : Code → Option OperationCode
op_parse_extend_code_1101_11 code = none

unfoldable pub op_parse_extend_code_1110_00 : Code → Option OperationCode
op_parse_extend_code_1110_00 code = none

unfoldable pub op_parse_extend_code_1110_01 : Code → Option OperationCode
op_parse_extend_code_1110_01 code = none

unfoldable pub op_parse_extend_code_1110_10 : Code → Option OperationCode
op_parse_extend_code_1110_10 code = none

unfoldable pub op_parse_extend_code_1110_11 : Code → Option OperationCode
op_parse_extend_code_1110_11 code = none

unfoldable pub op_parse_extend_code_1111_00 : Code → Option OperationCode
op_parse_extend_code_1111_00 code = none

unfoldable pub op_parse_extend_code_1111_01 : Code → Option OperationCode
op_parse_extend_code_1111_01 code = none

unfoldable pub op_parse_extend_code_1111_10 : Code → Option OperationCode
op_parse_extend_code_1111_10 code = none

unfoldable pub op_parse_extend_code_1111_11 : Code → Option OperationCode
op_parse_extend_code_1111_11 code = none
