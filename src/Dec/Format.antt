-- ===== src/Dec/Format.antt =====
-- The decoded operands of the instruction formats (src/cpu/cpu_dec/op_format.h).
use athrill_target_rh850f1x.Base.{ℕ, ℤ, pos, List, replicate}

-- OpCodeFormatId; its value is the position in this list, from 0.
pub data OpCodeFormatId : Type 0 where
  format_1 format_2 format_3 format_4 format_5 format_6 format_7 format_8 : OpCodeFormatId
  format_9 format_10 format_11 format_12 format_13 format_14 format_f unknown : OpCodeFormatId

-- reg-reg
pub record OpCodeFormatType1 : Type 0 where
  pub opcode : ℕ
  pub reg1 : ℕ
  pub reg2 : ℕ

-- imm-reg
pub record OpCodeFormatType2 : Type 0 where
  pub opcode : ℕ
  pub imm : ℕ
  pub reg2 : ℕ

-- conditional branch
pub record OpCodeFormatType3 : Type 0 where
  pub opcode : ℕ
  pub disp : ℕ
  pub cond : ℕ

-- load and store of 16 bits
pub record OpCodeFormatType4_1 : Type 0 where
  pub opcode : ℕ
  pub disp : ℕ
  pub reg2 : ℕ
  pub gen : ℕ

-- load and store of 16 bits, form 2
pub record OpCodeFormatType4_2 : Type 0 where
  pub opcode : ℕ
  pub disp : ℕ
  pub reg2 : ℕ

-- jump
pub record OpCodeFormatType5 : Type 0 where
  pub opcode : ℕ
  pub disp : ℕ
  pub reg2 : ℕ

-- three operands
pub record OpCodeFormatType6 : Type 0 where
  pub opcode : ℕ
  pub imm : ℕ
  pub reg1 : ℕ
  pub reg2 : ℕ

-- load and store of 32 bits
pub record OpCodeFormatType7 : Type 0 where
  pub opcode : ℕ
  pub disp : ℕ
  pub reg1 : ℕ
  pub reg2 : ℕ
  pub gen : ℕ

-- operation on a bit; `disp` is signed
pub record OpCodeFormatType8 : Type 0 where
  pub opcode : ℕ
  pub sub : ℕ
  pub bit : ℕ
  pub reg1 : ℕ
  pub disp : ℤ

-- extended, form 1
pub record OpCodeFormatType9 : Type 0 where
  pub opcode : ℕ
  pub sub : ℕ
  pub gen : ℕ
  pub reg2 : ℕ
  pub rfu2 : ℕ
  pub rfu1 : ℕ

-- extended, form 2
pub record OpCodeFormatType10 : Type 0 where
  pub opcode : ℕ
  pub gen1 : ℕ
  pub gen2 : ℕ
  pub sub : ℕ
  pub rfu1 : ℕ
  pub rfu2 : ℕ
  pub rfu3 : ℕ

-- extended, form 3
pub record OpCodeFormatType11 : Type 0 where
  pub opcode : ℕ
  pub reg1 : ℕ
  pub reg2 : ℕ
  pub reg3 : ℕ
  pub sub1 : ℕ
  pub sub2 : ℕ
  pub rfu : ℕ

-- extended, form 4
pub record OpCodeFormatType12 : Type 0 where
  pub opcode : ℕ
  pub reg2 : ℕ
  pub reg3 : ℕ
  pub imml : ℕ
  pub immh : ℕ
  pub sub1 : ℕ
  pub sub2 : ℕ

-- stack; `list` has 32 entries
pub record OpCodeFormatType13 : Type 0 where
  pub opcode : ℕ
  pub imm : ℕ
  pub list : List ℕ
  pub gen : ℕ
  pub rfu : ℕ

-- load and store of 48 bits
pub record OpCodeFormatType14 : Type 0 where
  pub sub1 : ℕ
  pub opcode : ℕ
  pub reg1 : ℕ
  pub reg3 : ℕ
  pub disp_low : ℕ
  pub sub2 : ℕ
  pub disp_high : ℕ

-- floating point
pub record OpCodeFormatTypeF : Type 0 where
  pub reg2 : ℕ
  pub opcode : ℕ
  pub reg1 : ℕ
  pub reg3 : ℕ
  pub subopcode : ℕ

-- The decoder writes the part of its format and leaves the others. `type_id` is never written.
pub record OpDecodedCode : Type 0 where
  pub type_id : OpCodeFormatId
  pub type1 : OpCodeFormatType1
  pub type2 : OpCodeFormatType2
  pub type3 : OpCodeFormatType3
  pub type4_1 : OpCodeFormatType4_1
  pub type4_2 : OpCodeFormatType4_2
  pub type5 : OpCodeFormatType5
  pub type6 : OpCodeFormatType6
  pub type7 : OpCodeFormatType7
  pub type8 : OpCodeFormatType8
  pub type9 : OpCodeFormatType9
  pub type10 : OpCodeFormatType10
  pub type11 : OpCodeFormatType11
  pub type12 : OpCodeFormatType12
  pub type13 : OpCodeFormatType13
  pub type14 : OpCodeFormatType14
  pub type_f : OpCodeFormatTypeF

-- Operands that were never decoded.
abbrev pub zeros : OpDecodedCode
zeros = record {
  type_id = format_1;
  type1 = record { opcode = 0; reg1 = 0; reg2 = 0 };
  type2 = record { opcode = 0; imm = 0; reg2 = 0 };
  type3 = record { opcode = 0; disp = 0; cond = 0 };
  type4_1 = record { opcode = 0; disp = 0; reg2 = 0; gen = 0 };
  type4_2 = record { opcode = 0; disp = 0; reg2 = 0 };
  type5 = record { opcode = 0; disp = 0; reg2 = 0 };
  type6 = record { opcode = 0; imm = 0; reg1 = 0; reg2 = 0 };
  type7 = record { opcode = 0; disp = 0; reg1 = 0; reg2 = 0; gen = 0 };
  type8 = record { opcode = 0; sub = 0; bit = 0; reg1 = 0; disp = pos 0 };
  type9 = record { opcode = 0; sub = 0; gen = 0; reg2 = 0; rfu2 = 0; rfu1 = 0 };
  type10 = record { opcode = 0; gen1 = 0; gen2 = 0; sub = 0; rfu1 = 0; rfu2 = 0; rfu3 = 0 };
  type11 = record { opcode = 0; reg1 = 0; reg2 = 0; reg3 = 0; sub1 = 0; sub2 = 0; rfu = 0 };
  type12 = record { opcode = 0; reg2 = 0; reg3 = 0; imml = 0; immh = 0; sub1 = 0; sub2 = 0 };
  type13 = record { opcode = 0; imm = 0; list = replicate 32 0; gen = 0; rfu = 0 };
  type14 = record {
    sub1 = 0;
    opcode = 0;
    reg1 = 0;
    reg3 = 0;
    disp_low = 0;
    sub2 = 0;
    disp_high = 0;
  };
  type_f = record { reg2 = 0; opcode = 0; reg1 = 0; reg3 = 0; subopcode = 0 };
}
