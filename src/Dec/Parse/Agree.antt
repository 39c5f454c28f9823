-- ===== src/Dec/Parse/Agree.antt =====
-- Every operation of the tables comes with the format of its name.
use athrill_target_rh850f1x.Base.{
  ◌≡◌, ℕ, zero, suc, get_or, arith, Bool, true, false, Option, none, some, List, [], ◌∷◌, arith,
}
use athrill_target_rh850f1x.Dec.Types.{Code, OperationCode, first_of}
use athrill_target_rh850f1x.Dec.CodeFormat.{code_format}
use athrill_target_rh850f1x.Dec.Parse.Base0.{
  op_parse_base_code_0000_00, op_parse_base_code_0000_01, op_parse_base_code_0000_10,
  op_parse_base_code_0000_11, op_parse_base_code_0001_00, op_parse_base_code_0001_01,
  op_parse_base_code_0001_10, op_parse_base_code_0001_11, op_parse_base_code_0010_00,
  op_parse_base_code_0010_01, op_parse_base_code_0010_10, op_parse_base_code_0010_11,
  op_parse_base_code_0011_00, op_parse_base_code_0011_01, op_parse_base_code_0011_10,
  op_parse_base_code_0011_11, op_parse_base_code_0100_00, op_parse_base_code_0100_01,
  op_parse_base_code_0100_10, op_parse_base_code_0100_11, op_parse_base_code_0101_00,
  op_parse_base_code_0101_01, op_parse_base_code_0101_10, op_parse_base_code_0101_11,
  op_parse_base_code_0110_00, op_parse_base_code_0110_01, op_parse_base_code_0110_10,
  op_parse_base_code_0110_11, op_parse_base_code_0111_00, op_parse_base_code_0111_01,
  op_parse_base_code_0111_10, op_parse_base_code_0111_11, op_parse_base_code_1000_00,
  op_parse_base_code_1000_01, op_parse_base_code_1000_10,
}
use athrill_target_rh850f1x.Dec.Parse.Base1.{
  op_parse_base_code_1000_11, op_parse_base_code_1001_00, op_parse_base_code_1001_01,
  op_parse_base_code_1001_10, op_parse_base_code_1001_11, op_parse_base_code_1010_00,
  op_parse_base_code_1010_01, op_parse_base_code_1010_10, op_parse_base_code_1010_11,
  op_parse_base_code_1011_00, op_parse_base_code_1011_01, op_parse_base_code_1011_10,
  op_parse_base_code_1011_11, op_parse_base_code_1100_00, op_parse_base_code_1100_01,
  op_parse_base_code_1100_10, op_parse_base_code_1100_11, op_parse_base_code_1101_00,
  op_parse_base_code_1101_01, op_parse_base_code_1101_10, op_parse_base_code_1101_11,
  op_parse_base_code_1110_00, op_parse_base_code_1110_01, op_parse_base_code_1110_10,
  op_parse_base_code_1110_11, op_parse_base_code_1111_00, op_parse_base_code_1111_01,
}
use athrill_target_rh850f1x.Dec.Parse.Base2.{op_parse_base_code_1111_10, op_parse_base_code_1111_11}
use athrill_target_rh850f1x.Dec.Parse.Extend0.{
  op_parse_extend_code_0000_00, op_parse_extend_code_0000_01, op_parse_extend_code_0000_10,
  op_parse_extend_code_0000_11, op_parse_extend_code_0001_00, op_parse_extend_code_0001_01,
  op_parse_extend_code_0001_10, op_parse_extend_code_0001_11, op_parse_extend_code_0010_00,
  op_parse_extend_code_0010_01, op_parse_extend_code_0010_10, op_parse_extend_code_0010_11,
  op_parse_extend_code_0011_00, op_parse_extend_code_0011_01, op_parse_extend_code_0011_10,
  op_parse_extend_code_0011_11, op_parse_extend_code_0100_00, op_parse_extend_code_0100_01,
  op_parse_extend_code_0100_10, op_parse_extend_code_0100_11, op_parse_extend_code_0101_00,
  op_parse_extend_code_0101_01, op_parse_extend_code_0101_10, op_parse_extend_code_0101_11,
  op_parse_extend_code_0110_00, op_parse_extend_code_0110_01,
}
use athrill_target_rh850f1x.Dec.Parse.Extend1.{
  op_parse_extend_code_0110_10, op_parse_extend_code_0110_11, op_parse_extend_code_0111_00,
  op_parse_extend_code_0111_01, op_parse_extend_code_0111_10, op_parse_extend_code_0111_11,
  op_parse_extend_code_1000_00, op_parse_extend_code_1000_01, op_parse_extend_code_1000_10,
  op_parse_extend_code_1000_11, op_parse_extend_code_1001_00, op_parse_extend_code_1001_01,
  op_parse_extend_code_1001_10, op_parse_extend_code_1001_11, op_parse_extend_code_1010_00,
}
use athrill_target_rh850f1x.Dec.Parse.Extend2.{
  op_parse_extend_code_1010_01, op_parse_extend_code_1010_10, op_parse_extend_code_1010_11,
  op_parse_extend_code_1011_00, op_parse_extend_code_1011_01, op_parse_extend_code_1011_10,
  op_parse_extend_code_1011_11, op_parse_extend_code_1100_00, op_parse_extend_code_1100_01,
  op_parse_extend_code_1100_10, op_parse_extend_code_1100_11, op_parse_extend_code_1101_00,
  op_parse_extend_code_1101_01, op_parse_extend_code_1101_10, op_parse_extend_code_1101_11,
  op_parse_extend_code_1110_00, op_parse_extend_code_1110_01, op_parse_extend_code_1110_10,
  op_parse_extend_code_1110_11, op_parse_extend_code_1111_00, op_parse_extend_code_1111_01,
  op_parse_extend_code_1111_10, op_parse_extend_code_1111_11,
}
use athrill_target_rh850f1x.Dec.Parse.Table.{op_parse_base_code_table, op_parse_extend_code_table}

-- A parsed operation, where there is one, has the format of its name.
abbrev pub Agrees : Option OperationCode → Type 0
Agrees none = Unit
Agrees (some o) = o.format_id ≡ code_format o.code_id

abbrev AllAgree : List (Bool × OperationCode) → Type 0
AllAgree [] = Unit
AllAgree ((_, o) ∷ rows) = (o.format_id ≡ code_format o.code_id) × AllAgree rows

first_of-Agrees : (rows : List (Bool × OperationCode)) → AllAgree rows → Agrees (first_of rows)
unfolding first_of
first_of-Agrees [] all = tt
first_of-Agrees ((true, o) ∷ rows) all = all.0
first_of-Agrees ((false, o) ∷ rows) all = first_of-Agrees rows all.1

abbrev EachAgrees : List (Code → Option OperationCode) → Code → Type 0
EachAgrees [] code = Unit
EachAgrees (parse ∷ table) code = Agrees (parse code) × EachAgrees table code

pub get_or-Agrees :
    (table : List (Code → Option OperationCode)) (code : Code) (i : ℕ)
    → EachAgrees table code
    → Agrees (get_or table i (λ _. none) code)
get_or-Agrees [] code i all = tt
get_or-Agrees (parse ∷ table) code zero all = all.0
get_or-Agrees (parse ∷ table) code (suc i) all = get_or-Agrees table code i all.1

pub op_parse_base_code_table-EachAgrees : (code : Code) → EachAgrees op_parse_base_code_table code
unfolding op_parse_base_code_0000_00 op_parse_base_code_0000_01 op_parse_base_code_0000_10
    op_parse_base_code_0000_11 op_parse_base_code_0001_00 op_parse_base_code_0001_01
    op_parse_base_code_0001_10 op_parse_base_code_0001_11 op_parse_base_code_0010_00
    op_parse_base_code_0010_01 op_parse_base_code_0010_10 op_parse_base_code_0010_11
    op_parse_base_code_0011_00 op_parse_base_code_0011_01 op_parse_base_code_0011_10
    op_parse_base_code_0011_11 op_parse_base_code_0100_00 op_parse_base_code_0100_01
    op_parse_base_code_0100_10 op_parse_base_code_0100_11 op_parse_base_code_0101_00
    op_parse_base_code_0101_01 op_parse_base_code_0101_10 op_parse_base_code_0101_11
    op_parse_base_code_0110_00 op_parse_base_code_0110_01 op_parse_base_code_0110_10
    op_parse_base_code_0110_11 op_parse_base_code_0111_00 op_parse_base_code_0111_01
    op_parse_base_code_0111_10 op_parse_base_code_0111_11 op_parse_base_code_1000_00
    op_parse_base_code_1000_01 op_parse_base_code_1000_10 op_parse_base_code_1000_11
    op_parse_base_code_1001_00 op_parse_base_code_1001_01 op_parse_base_code_1001_10
    op_parse_base_code_1001_11 op_parse_base_code_1010_00 op_parse_base_code_1010_01
    op_parse_base_code_1010_10 op_parse_base_code_1010_11 op_parse_base_code_1011_00
    op_parse_base_code_1011_01 op_parse_base_code_1011_10 op_parse_base_code_1011_11
    op_parse_base_code_1100_00 op_parse_base_code_1100_01 op_parse_base_code_1100_10
    op_parse_base_code_1100_11 op_parse_base_code_1101_00 op_parse_base_code_1101_01
    op_parse_base_code_1101_10 op_parse_base_code_1101_11 op_parse_base_code_1110_00
    op_parse_base_code_1110_01 op_parse_base_code_1110_10 op_parse_base_code_1110_11
    op_parse_base_code_1111_00 op_parse_base_code_1111_01 op_parse_base_code_1111_10
    op_parse_base_code_1111_11 code_format
op_parse_base_code_table-EachAgrees code = search first_of-Agrees depth 140 fits 9000

-- The one entry for most of the floating point operations.
op_parse_extend_code_1000_10-Agrees : (code : Code) → Agrees (op_parse_extend_code_1000_10 code)
unfolding op_parse_extend_code_1000_10 code_format
op_parse_extend_code_1000_10-Agrees code = first_of-Agrees _ (ground arith)

pub op_parse_extend_code_table-EachAgrees :
    (code : Code) → EachAgrees op_parse_extend_code_table code
unfolding op_parse_extend_code_0000_00 op_parse_extend_code_0000_01 op_parse_extend_code_0000_10
    op_parse_extend_code_0000_11 op_parse_extend_code_0001_00 op_parse_extend_code_0001_01
    op_parse_extend_code_0001_10 op_parse_extend_code_0001_11 op_parse_extend_code_0010_00
    op_parse_extend_code_0010_01 op_parse_extend_code_0010_10 op_parse_extend_code_0010_11
    op_parse_extend_code_0011_00 op_parse_extend_code_0011_01 op_parse_extend_code_0011_10
    op_parse_extend_code_0011_11 op_parse_extend_code_0100_00 op_parse_extend_code_0100_01
    op_parse_extend_code_0100_10 op_parse_extend_code_0100_11 op_parse_extend_code_0101_00
    op_parse_extend_code_0101_01 op_parse_extend_code_0101_10 op_parse_extend_code_0101_11
    op_parse_extend_code_0110_00 op_parse_extend_code_0110_01 op_parse_extend_code_0110_10
    op_parse_extend_code_0110_11 op_parse_extend_code_0111_00 op_parse_extend_code_0111_01
    op_parse_extend_code_0111_10 op_parse_extend_code_0111_11 op_parse_extend_code_1000_00
    op_parse_extend_code_1000_01 op_parse_extend_code_1000_11 op_parse_extend_code_1001_00
    op_parse_extend_code_1001_01 op_parse_extend_code_1001_10 op_parse_extend_code_1001_11
    op_parse_extend_code_1010_00 op_parse_extend_code_1010_01 op_parse_extend_code_1010_10
    op_parse_extend_code_1010_11 op_parse_extend_code_1011_00 op_parse_extend_code_1011_01
    op_parse_extend_code_1011_10 op_parse_extend_code_1011_11 op_parse_extend_code_1100_00
    op_parse_extend_code_1100_01 op_parse_extend_code_1100_10 op_parse_extend_code_1100_11
    op_parse_extend_code_1101_00 op_parse_extend_code_1101_01 op_parse_extend_code_1101_10
    op_parse_extend_code_1101_11 op_parse_extend_code_1110_00 op_parse_extend_code_1110_01
    op_parse_extend_code_1110_10 op_parse_extend_code_1110_11 op_parse_extend_code_1111_00
    op_parse_extend_code_1111_01 op_parse_extend_code_1111_10 op_parse_extend_code_1111_11
    code_format
op_parse_extend_code_table-EachAgrees code =
    search (first_of-Agrees, op_parse_extend_code_1000_10-Agrees) depth 140 fits 9000
