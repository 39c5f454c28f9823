-- ===== src/Dec/Parse/Table.antt =====
-- The two tables of op_parse_private.c: the entry of the bits that choose the operation.
use athrill_target_rh850f1x.Base.{Option, List, [], ◌∷◌}
use athrill_target_rh850f1x.Dec.Types.{Code, OperationCode}
use athrill_target_rh850f1x.Dec.Parse.Base0.{
  op_parse_base_code_0000_00, op_parse_base_code_0000_01, op_parse_base_code_0000_10,
  op_parse_base_code_0000_11, op_parse_base_code_0001_00, op_parse_base_code_0001_01,
  op_parse_base_code_0001_10, op_parse_base_code_0001_11, op_parse_base_code_0010_00,
  op_parse_base_code_0010_01, op_parse_base_code_0010_10, op_parse_base_code_0010_11,
  op_parse_base_code_0011_00, op_parse_base_code_0011_01, op_parse_base_code_0011_10,
  op_parse_base_code_0011_11, op_parse_base_code_0100_00, op_parse_base_code_0100_01,
  op_parse_base_code_0100_10, op_parse_base_code_0100_11, op_parse_base_code_0101_00,
  op_parse_base_code_0101_01, op_parse_base_code_0101_10, op_parse_base_code_0101_11,
  op_parse_base_code_0110_00, op_parse_base_code_0110_01, op_parse_base_code_0110_10,
  op_parse_base_code_0110_11, op_parse_base_code_0111_00, op_parse_base_code_0111_01,
  op_parse_base_code_0111_10, op_parse_base_code_0111_11, op_parse_base_code_1000_00,
  op_parse_base_code_1000_01, op_parse_base_code_1000_10,
}
use athrill_target_rh850f1x.Dec.Parse.Base1.{
  op_parse_base_code_1000_11, op_parse_base_code_1001_00, op_parse_base_code_1001_01,
  op_parse_base_code_1001_10, op_parse_base_code_1001_11, op_parse_base_code_1010_00,
  op_parse_base_code_1010_01, op_parse_base_code_1010_10, op_parse_base_code_1010_11,
  op_parse_base_code_1011_00, op_parse_base_code_1011_01, op_parse_base_code_1011_10,
  op_parse_base_code_1011_11, op_parse_base_code_1100_00, op_parse_base_code_1100_01,
  op_parse_base_code_1100_10, op_parse_base_code_1100_11, op_parse_base_code_1101_00,
  op_parse_base_code_1101_01, op_parse_base_code_1101_10, op_parse_base_code_1101_11,
  op_parse_base_code_1110_00, op_parse_base_code_1110_01, op_parse_base_code_1110_10,
  op_parse_base_code_1110_11, op_parse_base_code_1111_00, op_parse_base_code_1111_01,
}
use athrill_target_rh850f1x.Dec.Parse.Base2.{op_parse_base_code_1111_10, op_parse_base_code_1111_11}
use athrill_target_rh850f1x.Dec.Parse.Extend0.{
  op_parse_extend_code_0000_00, op_parse_extend_code_0000_01, op_parse_extend_code_0000_10,
  op_parse_extend_code_0000_11, op_parse_extend_code_0001_00, op_parse_extend_code_0001_01,
  op_parse_extend_code_0001_10, op_parse_extend_code_0001_11, op_parse_extend_code_0010_00,
  op_parse_extend_code_0010_01, op_parse_extend_code_0010_10, op_parse_extend_code_0010_11,
  op_parse_extend_code_0011_00, op_parse_extend_code_0011_01, op_parse_extend_code_0011_10,
  op_parse_extend_code_0011_11, op_parse_extend_code_0100_00, op_parse_extend_code_0100_01,
  op_parse_extend_code_0100_10, op_parse_extend_code_0100_11, op_parse_extend_code_0101_00,
  op_parse_extend_code_0101_01, op_parse_extend_code_0101_10, op_parse_extend_code_0101_11,
  op_parse_extend_code_0110_00, op_parse_extend_code_0110_01,
}
use athrill_target_rh850f1x.Dec.Parse.Extend1.{
  op_parse_extend_code_0110_10, op_parse_extend_code_0110_11, op_parse_extend_code_0111_00,
  op_parse_extend_code_0111_01, op_parse_extend_code_0111_10, op_parse_extend_code_0111_11,
  op_parse_extend_code_1000_00, op_parse_extend_code_1000_01, op_parse_extend_code_1000_10,
  op_parse_extend_code_1000_11, op_parse_extend_code_1001_00, op_parse_extend_code_1001_01,
  op_parse_extend_code_1001_10, op_parse_extend_code_1001_11, op_parse_extend_code_1010_00,
}
use athrill_target_rh850f1x.Dec.Parse.Extend2.{
  op_parse_extend_code_1010_01, op_parse_extend_code_1010_10, op_parse_extend_code_1010_11,
  op_parse_extend_code_1011_00, op_parse_extend_code_1011_01, op_parse_extend_code_1011_10,
  op_parse_extend_code_1011_11, op_parse_extend_code_1100_00, op_parse_extend_code_1100_01,
  op_parse_extend_code_1100_10, op_parse_extend_code_1100_11, op_parse_extend_code_1101_00,
  op_parse_extend_code_1101_01, op_parse_extend_code_1101_10, op_parse_extend_code_1101_11,
  op_parse_extend_code_1110_00, op_parse_extend_code_1110_01, op_parse_extend_code_1110_10,
  op_parse_extend_code_1110_11, op_parse_extend_code_1111_00, op_parse_extend_code_1111_01,
  op_parse_extend_code_1111_10, op_parse_extend_code_1111_11,
}

abbrev pub op_parse_base_code_table : List (Code → Option OperationCode)
op_parse_base_code_table =
    op_parse_base_code_0000_00 ∷ op_parse_base_code_0000_01 ∷ op_parse_base_code_0000_10
    ∷ op_parse_base_code_0000_11 ∷ op_parse_base_code_0001_00 ∷ op_parse_base_code_0001_01
    ∷ op_parse_base_code_0001_10 ∷ op_parse_base_code_0001_11 ∷ op_parse_base_code_0010_00
    ∷ op_parse_base_code_0010_01 ∷ op_parse_base_code_0010_10 ∷ op_parse_base_code_0010_11
    ∷ op_parse_base_code_0011_00 ∷ op_parse_base_code_0011_01 ∷ op_parse_base_code_0011_10
    ∷ op_parse_base_code_0011_11 ∷ op_parse_base_code_0100_00 ∷ op_parse_base_code_0100_01
    ∷ op_parse_base_code_0100_10 ∷ op_parse_base_code_0100_11 ∷ op_parse_base_code_0101_00
    ∷ op_parse_base_code_0101_01 ∷ op_parse_base_code_0101_10 ∷ op_parse_base_code_0101_11
    ∷ op_parse_base_code_0110_00 ∷ op_parse_base_code_0110_01 ∷ op_parse_base_code_0110_10
    ∷ op_parse_base_code_0110_11 ∷ op_parse_base_code_0111_00 ∷ op_parse_base_code_0111_01
    ∷ op_parse_base_code_0111_10 ∷ op_parse_base_code_0111_11 ∷ op_parse_base_code_1000_00
    ∷ op_parse_base_code_1000_01 ∷ op_parse_base_code_1000_10 ∷ op_parse_base_code_1000_11
    ∷ op_parse_base_code_1001_00 ∷ op_parse_base_code_1001_01 ∷ op_parse_base_code_1001_10
    ∷ op_parse_base_code_1001_11 ∷ op_parse_base_code_1010_00 ∷ op_parse_base_code_1010_01
    ∷ op_parse_base_code_1010_10 ∷ op_parse_base_code_1010_11 ∷ op_parse_base_code_1011_00
    ∷ op_parse_base_code_1011_01 ∷ op_parse_base_code_1011_10 ∷ op_parse_base_code_1011_11
    ∷ op_parse_base_code_1100_00 ∷ op_parse_base_code_1100_01 ∷ op_parse_base_code_1100_10
    ∷ op_parse_base_code_1100_11 ∷ op_parse_base_code_1101_00 ∷ op_parse_base_code_1101_01
    ∷ op_parse_base_code_1101_10 ∷ op_parse_base_code_1101_11 ∷ op_parse_base_code_1110_00
    ∷ op_parse_base_code_1110_01 ∷ op_parse_base_code_1110_10 ∷ op_parse_base_code_1110_11
    ∷ op_parse_base_code_1111_00 ∷ op_parse_base_code_1111_01 ∷ op_parse_base_code_1111_10
    ∷ op_parse_base_code_1111_11 ∷ []

abbrev pub op_parse_extend_code_table : List (Code → Option OperationCode)
op_parse_extend_code_table =
    op_parse_extend_code_0000_00 ∷ op_parse_extend_code_0000_01 ∷ op_parse_extend_code_0000_10
    ∷ op_parse_extend_code_0000_11 ∷ op_parse_extend_code_0001_00 ∷ op_parse_extend_code_0001_01
    ∷ op_parse_extend_code_0001_10 ∷ op_parse_extend_code_0001_11 ∷ op_parse_extend_code_0010_00
    ∷ op_parse_extend_code_0010_01 ∷ op_parse_extend_code_0010_10 ∷ op_parse_extend_code_0010_11
    ∷ op_parse_extend_code_0011_00 ∷ op_parse_extend_code_0011_01 ∷ op_parse_extend_code_0011_10
    ∷ op_parse_extend_code_0011_11 ∷ op_parse_extend_code_0100_00 ∷ op_parse_extend_code_0100_01
    ∷ op_parse_extend_code_0100_10 ∷ op_parse_extend_code_0100_11 ∷ op_parse_extend_code_0101_00
    ∷ op_parse_extend_code_0101_01 ∷ op_parse_extend_code_0101_10 ∷ op_parse_extend_code_0101_11
    ∷ op_parse_extend_code_0110_00 ∷ op_parse_extend_code_0110_01 ∷ op_parse_extend_code_0110_10
    ∷ op_parse_extend_code_0110_11 ∷ op_parse_extend_code_0111_00 ∷ op_parse_extend_code_0111_01
    ∷ op_parse_extend_code_0111_10 ∷ op_parse_extend_code_0111_11 ∷ op_parse_extend_code_1000_00
    ∷ op_parse_extend_code_1000_01 ∷ op_parse_extend_code_1000_10 ∷ op_parse_extend_code_1000_11
    ∷ op_parse_extend_code_1001_00 ∷ op_parse_extend_code_1001_01 ∷ op_parse_extend_code_1001_10
    ∷ op_parse_extend_code_1001_11 ∷ op_parse_extend_code_1010_00 ∷ op_parse_extend_code_1010_01
    ∷ op_parse_extend_code_1010_10 ∷ op_parse_extend_code_1010_11 ∷ op_parse_extend_code_1011_00
    ∷ op_parse_extend_code_1011_01 ∷ op_parse_extend_code_1011_10 ∷ op_parse_extend_code_1011_11
    ∷ op_parse_extend_code_1100_00 ∷ op_parse_extend_code_1100_01 ∷ op_parse_extend_code_1100_10
    ∷ op_parse_extend_code_1100_11 ∷ op_parse_extend_code_1101_00 ∷ op_parse_extend_code_1101_01
    ∷ op_parse_extend_code_1101_10 ∷ op_parse_extend_code_1101_11 ∷ op_parse_extend_code_1110_00
    ∷ op_parse_extend_code_1110_01 ∷ op_parse_extend_code_1110_10 ∷ op_parse_extend_code_1110_11
    ∷ op_parse_extend_code_1111_00 ∷ op_parse_extend_code_1111_01 ∷ op_parse_extend_code_1111_10
    ∷ op_parse_extend_code_1111_11 ∷ []
