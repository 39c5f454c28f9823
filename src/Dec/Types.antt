-- ===== src/Dec/Types.antt =====
-- The types that the parser of operation codes shares (op_format.h, op_parse.h, op_dec_types.h),
-- and the fields of op_parse_private.h.
use athrill_target_rh850f1x.Base.{
  ℕ, ◌*◌, ◌/◌, ◌^◌, bit_and, bit_or, Bool, if◌then◌else◌, Option, none, some, List, [], ◌∷◌,
}
use athrill_target_rh850f1x.Dec.Format.{OpCodeFormatId}
use athrill_target_rh850f1x.Dec.CodeId.{OpCodeId}

pub record OperationCode : Type 0 where
  pub format_id : OpCodeFormatId
  pub code_id : OpCodeId

-- code[OP_DECODE_MAX]: three words of 16 bits
pub record Code : Type 0 where
  pub w0 : ℕ
  pub w1 : ℕ
  pub w2 : ℕ

-- optype->code_id = c; optype->format_id = f
abbrev pub op : OpCodeId → OpCodeFormatId → OperationCode
op c f = record { format_id = f; code_id = c }

-- A function of the tables is a row of `if (c) { *optype = o; return 0; }`, and -1 at its end.
unfoldable pub first_of : List (Bool × OperationCode) → Option OperationCode
first_of [] = none
first_of ((c, o) ∷ rest) = let later = first_of rest in if c then some o else later

-- (code[1] << 16) | code[0]
abbrev pub code_value : Code → ℕ
code_value code = bit_or (code.w1 * 2 ^ 16) code.w0

-- GET_REG1, GET_REG2, GET_REG3
abbrev pub get_reg1 : ℕ → ℕ
get_reg1 data0 = bit_and data0 0x1f / 2 ^ 0

abbrev pub get_reg2 : ℕ → ℕ
get_reg2 data0 = bit_and data0 0xf800 / 2 ^ 11

abbrev pub get_reg3 : ℕ → ℕ
get_reg3 data1 = bit_and data1 0xf800 / 2 ^ 11

-- BIT_MASK_10_5, BIT_MASK_16
abbrev pub bit_mask_10_5 : ℕ
bit_mask_10_5 = 0x7e0

abbrev pub bit_mask_16 : ℕ
bit_mask_16 = 0x10000

-- GET_VALUE_BIT_10_7, GET_VALUE_BIT_6_5
abbrev pub get_value_bit_10_7 : ℕ → ℕ
get_value_bit_10_7 data0 = bit_and data0 0x780 / 2 ^ 7

abbrev pub get_value_bit_6_5 : ℕ → ℕ
get_value_bit_6_5 data0 = bit_and data0 0x60 / 2 ^ 5

-- GET_VALUE_BIT_26_23, GET_VALUE_BIT_22_21
abbrev pub get_value_bit_26_23 : ℕ → ℕ
get_value_bit_26_23 value = bit_and value 0x7800000 / 2 ^ 23

abbrev pub get_value_bit_22_21 : ℕ → ℕ
get_value_bit_22_21 value = bit_and value 0x600000 / 2 ^ 21

-- OP_PARSE_TABLE_INDEX
abbrev pub op_parse_table_index : ℕ → ℕ → ℕ
op_parse_table_index base_id sub_id = bit_or (base_id * 2 ^ 2) sub_id

-- OP_PARSE_CODE_TABLE_NUM
abbrev pub op_parse_code_table_num : ℕ
op_parse_code_table_num = 64

-- ( (word >> shift) & mask )
abbrev pub field : ℕ → ℕ → ℕ → ℕ
field word shift mask = bit_and (word / 2 ^ shift) mask
