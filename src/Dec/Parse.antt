-- ===== src/Dec/Parse.antt =====
-- op_parse (src/cpu/cpu_dec/op_parse.c): the choice of the table, the entry it calls, and the
-- decoder of the format that this entry gives.
mod Base0
mod Base1
mod Base2
mod Extend0
mod Extend1
mod Extend2
mod Table
mod Agree
mod Format
mod Index
mod Assemble
mod Tests
use Table.{op_parse_base_code_table, op_parse_extend_code_table}
use athrill_target_rh850f1x.Base.{
  ℕ, bit_and, ◌==◌, ◌&&◌, Bool, if◌then◌else◌, Option, none, some, get_or,
}
use athrill_target_rh850f1x.Dec.Types.{
  Code, OperationCode, code_value, bit_mask_10_5, bit_mask_16, get_value_bit_10_7,
  get_value_bit_6_5, get_value_bit_26_23, get_value_bit_22_21, op_parse_table_index,
}
use athrill_target_rh850f1x.Dec.Format.{OpDecodedCode}
use athrill_target_rh850f1x.Dec.Decode.{op_decoder}

-- The test for an extended code.
unfoldable pub is_extend : Code → Bool
is_extend code =
    bit_and code.w0 bit_mask_10_5 == bit_mask_10_5 && bit_and (code_value code) bit_mask_16 == 0

-- The index into op_parse_extend_code_table, and into op_parse_base_code_table.
unfoldable pub extend_index : Code → ℕ
extend_index code =
    let value = code_value code in
    op_parse_table_index (get_value_bit_26_23 value) (get_value_bit_22_21 value)

unfoldable pub base_index : Code → ℕ
base_index code = op_parse_table_index (get_value_bit_10_7 code.w0) (get_value_bit_6_5 code.w0)

-- The call of the table's function: the operation it stores, or -1.
unfoldable pub parse_code : Code → Option OperationCode
parse_code code =
    if is_extend code
    then get_or op_parse_extend_code_table (extend_index code) (λ _. none) code
    else get_or op_parse_base_code_table (base_index code) (λ _. none) code

-- The second half of op_parse; on -1 the decoded operands stay as they were.
unfoldable pub decode_op :
    Option OperationCode → Code → OpDecodedCode → Option OperationCode × OpDecodedCode
decode_op none code d = (none, d)
decode_op (some optype) code d = (some optype, op_decoder optype.format_id code d)

unfoldable pub op_parse : Code → OpDecodedCode → Option OperationCode × OpDecodedCode
unfolding decode_op
op_parse code d = decode_op (parse_code code) code d
