-- ===== src/Dec/Parse/Assemble.antt =====
-- Assembled instructions of the formats 1 and 2, and what op_parse makes of them.
use athrill_target_rh850f1x.Base.{ℕ, ◌<◌, ◌≡◌, refl, ◌∙◌, arith, none, some, get_or, false}
use athrill_target_rh850f1x.Dec.Fields.{mask_shift, field_lem}
use athrill_target_rh850f1x.Dec.Format.{
  OpCodeFormatType1, OpCodeFormatType2, OpDecodedCode, format_1, format_2,
}
use athrill_target_rh850f1x.Dec.CodeId.{
  OpCodeId, mov_1, not_1, divh_1, satsubr_1, satsub_1, satadd_1, mulh_1, or_1, xor_1, and_1, tst_1,
  subr_1, sub_1, add_1, cmp_1, mov_2, satadd_2, add_2, cmp_2, shr_2, sar_2, shl_2, mulh_2,
}
use athrill_target_rh850f1x.Dec.Types.{Code, op, first_of, field, get_reg1, get_reg2}
use athrill_target_rh850f1x.Dec.Decode.{op_decoder}
use athrill_target_rh850f1x.Dec.Decode.Rebuild.{word0}
use athrill_target_rh850f1x.Dec.Parse.Table.{op_parse_base_code_table}
use athrill_target_rh850f1x.Dec.Parse.Index.{is_extend_lem, base_index_lem}
use athrill_target_rh850f1x.Dec.Parse.{is_extend, base_index, parse_code, op_parse, decode_op}
use athrill_target_rh850f1x.Dec.Parse.Base0.{
  op_parse_base_code_0000_00, op_parse_base_code_0000_01, op_parse_base_code_0000_10,
  op_parse_base_code_0001_00, op_parse_base_code_0001_01, op_parse_base_code_0001_10,
  op_parse_base_code_0001_11, op_parse_base_code_0010_00, op_parse_base_code_0010_01,
  op_parse_base_code_0010_10, op_parse_base_code_0010_11, op_parse_base_code_0011_00,
  op_parse_base_code_0011_01, op_parse_base_code_0011_10, op_parse_base_code_0011_11,
  op_parse_base_code_0100_00, op_parse_base_code_0100_01, op_parse_base_code_0100_10,
  op_parse_base_code_0100_11, op_parse_base_code_0101_00, op_parse_base_code_0101_01,
  op_parse_base_code_0101_10, op_parse_base_code_0101_11,
}

-- The opcodes of the reg-reg instructions, for registers other than r0.
pub data RegReg : ℕ → OpCodeId → Type 0 where
  mov_reg : RegReg 0 mov_1
  not_reg : RegReg 1 not_1
  divh_reg : RegReg 2 divh_1
  satsubr_reg : RegReg 4 satsubr_1
  satsub_reg : RegReg 5 satsub_1
  satadd_reg : RegReg 6 satadd_1
  mulh_reg : RegReg 7 mulh_1
  or_reg : RegReg 8 or_1
  xor_reg : RegReg 9 xor_1
  and_reg : RegReg 10 and_1
  tst_reg : RegReg 11 tst_1
  subr_reg : RegReg 12 subr_1
  sub_reg : RegReg 13 sub_1
  add_reg : RegReg 14 add_1
  cmp_reg : RegReg 15 cmp_1

-- The opcodes of the imm-reg instructions, for a register other than r0.
pub data ImmReg : ℕ → OpCodeId → Type 0 where
  mov_imm : ImmReg 16 mov_2
  satadd_imm : ImmReg 17 satadd_2
  add_imm : ImmReg 18 add_2
  cmp_imm : ImmReg 19 cmp_2
  shr_imm : ImmReg 20 shr_2
  sar_imm : ImmReg 21 sar_2
  shl_imm : ImmReg 22 shl_2
  mulh_imm : ImmReg 23 mulh_2

-- The instruction of one half word, and what follows it in memory.
abbrev pub assembled : ℕ → ℕ → ℕ → ℕ → ℕ → Code
assembled high opcode low w1 w2 = record { w0 = word0 high opcode low; w1 = w1; w2 = w2 }

module _ (high opcode low w1 w2 : ℕ) (h : high < 32) (l : low < 32) where
  parse_code_base :
      opcode < 63
      → parse_code (assembled high opcode low w1 w2)
        ≡ get_or op_parse_base_code_table opcode (λ _. none) (assembled high opcode low w1 w2)
  unfolding parse_code
  parse_code_base o =
      let code = assembled high opcode low w1 w2 in
      let i : base_index code ≡ opcode = base_index_lem code ∙ omega arith in
      let e : is_extend code ≡ false = is_extend_lem code (omega arith) ∙ ground arith in
      rw (e, i) refl

  reg1_lem : opcode < 63 → get_reg1 (word0 high opcode low) ≡ low
  reg1_lem o = mask_shift _ 0 5 ∙ omega arith

  reg2_lem : opcode < 63 → get_reg2 (word0 high opcode low) ≡ high
  reg2_lem o = mask_shift _ 11 5 ∙ omega arith

  high_field : opcode < 63 → field (word0 high opcode low) 11 0x1f ≡ high
  high_field o = field_lem _ 11 5 ∙ omega arith

  opcode_field : opcode < 63 → field (word0 high opcode low) 5 0x3f ≡ opcode
  opcode_field o = field_lem _ 5 6 ∙ omega arith

  low_field : opcode < 63 → field (word0 high opcode low) 0 0x1f ≡ low
  low_field o = field_lem _ 0 5 ∙ omega arith

RegReg-opcode : {opcode : ℕ} {c : OpCodeId} → RegReg opcode c → opcode < 63
RegReg-opcode mov_reg = omega arith
RegReg-opcode not_reg = omega arith
RegReg-opcode divh_reg = omega arith
RegReg-opcode satsubr_reg = omega arith
RegReg-opcode satsub_reg = omega arith
RegReg-opcode satadd_reg = omega arith
RegReg-opcode mulh_reg = omega arith
RegReg-opcode or_reg = omega arith
RegReg-opcode xor_reg = omega arith
RegReg-opcode and_reg = omega arith
RegReg-opcode tst_reg = omega arith
RegReg-opcode subr_reg = omega arith
RegReg-opcode sub_reg = omega arith
RegReg-opcode add_reg = omega arith
RegReg-opcode cmp_reg = omega arith

ImmReg-opcode : {opcode : ℕ} {c : OpCodeId} → ImmReg opcode c → opcode < 63
ImmReg-opcode mov_imm = omega arith
ImmReg-opcode satadd_imm = omega arith
ImmReg-opcode add_imm = omega arith
ImmReg-opcode cmp_imm = omega arith
ImmReg-opcode shr_imm = omega arith
ImmReg-opcode sar_imm = omega arith
ImmReg-opcode shl_imm = omega arith
ImmReg-opcode mulh_imm = omega arith

parse_code-RegReg :
    {opcode : ℕ} {c : OpCodeId} (high low w1 w2 : ℕ)
    → RegReg opcode c
    → high < 32
    → 0 < high
    → low < 32
    → 0 < low
    → parse_code (assembled high opcode low w1 w2) ≡ some (op c format_1)
unfolding op_parse_base_code_0000_00 op_parse_base_code_0000_01 op_parse_base_code_0000_10
    op_parse_base_code_0001_00 op_parse_base_code_0001_01 op_parse_base_code_0001_10
    op_parse_base_code_0001_11 op_parse_base_code_0010_00 op_parse_base_code_0010_01
    op_parse_base_code_0010_10 op_parse_base_code_0010_11 op_parse_base_code_0011_00
    op_parse_base_code_0011_01 op_parse_base_code_0011_10 op_parse_base_code_0011_11 first_of
parse_code-RegReg high low w1 w2 mov_reg h h' l l' =
    parse_code_base high 0 low w1 w2 h l (omega arith)
    ∙ ground (
      arith,
      reg1_lem high 0 low w1 w2 h l (omega arith),
      reg2_lem high 0 low w1 w2 h l (omega arith),
    )
parse_code-RegReg high low w1 w2 not_reg h h' l l' =
    parse_code_base high 1 low w1 w2 h l (omega arith)
parse_code-RegReg high low w1 w2 divh_reg h h' l l' =
    parse_code_base high 2 low w1 w2 h l (omega arith)
    ∙ ground (
      arith,
      reg1_lem high 2 low w1 w2 h l (omega arith),
      reg2_lem high 2 low w1 w2 h l (omega arith),
    )
parse_code-RegReg high low w1 w2 satsubr_reg h h' l l' =
    parse_code_base high 4 low w1 w2 h l (omega arith)
    ∙ ground (arith, reg2_lem high 4 low w1 w2 h l (omega arith))
parse_code-RegReg high low w1 w2 satsub_reg h h' l l' =
    parse_code_base high 5 low w1 w2 h l (omega arith)
    ∙ ground (arith, reg2_lem high 5 low w1 w2 h l (omega arith))
parse_code-RegReg high low w1 w2 satadd_reg h h' l l' =
    parse_code_base high 6 low w1 w2 h l (omega arith)
    ∙ ground (arith, reg2_lem high 6 low w1 w2 h l (omega arith))
parse_code-RegReg high low w1 w2 mulh_reg h h' l l' =
    parse_code_base high 7 low w1 w2 h l (omega arith)
    ∙ ground (arith, reg2_lem high 7 low w1 w2 h l (omega arith))
parse_code-RegReg high low w1 w2 or_reg h h' l l' =
    parse_code_base high 8 low w1 w2 h l (omega arith)
parse_code-RegReg high low w1 w2 xor_reg h h' l l' =
    parse_code_base high 9 low w1 w2 h l (omega arith)
parse_code-RegReg high low w1 w2 and_reg h h' l l' =
    parse_code_base high 10 low w1 w2 h l (omega arith)
parse_code-RegReg high low w1 w2 tst_reg h h' l l' =
    parse_code_base high 11 low w1 w2 h l (omega arith)
parse_code-RegReg high low w1 w2 subr_reg h h' l l' =
    parse_code_base high 12 low w1 w2 h l (omega arith)
parse_code-RegReg high low w1 w2 sub_reg h h' l l' =
    parse_code_base high 13 low w1 w2 h l (omega arith)
parse_code-RegReg high low w1 w2 add_reg h h' l l' =
    parse_code_base high 14 low w1 w2 h l (omega arith)
parse_code-RegReg high low w1 w2 cmp_reg h h' l l' =
    parse_code_base high 15 low w1 w2 h l (omega arith)

parse_code-ImmReg :
    {opcode : ℕ} {c : OpCodeId} (high low w1 w2 : ℕ)
    → ImmReg opcode c
    → high < 32
    → 0 < high
    → low < 32
    → parse_code (assembled high opcode low w1 w2) ≡ some (op c format_2)
unfolding op_parse_base_code_0100_00 op_parse_base_code_0100_01 op_parse_base_code_0100_10
    op_parse_base_code_0100_11 op_parse_base_code_0101_00 op_parse_base_code_0101_01
    op_parse_base_code_0101_10 op_parse_base_code_0101_11 first_of
parse_code-ImmReg high low w1 w2 mov_imm h h' l =
    parse_code_base high 16 low w1 w2 h l (omega arith)
    ∙ ground (arith, reg2_lem high 16 low w1 w2 h l (omega arith))
parse_code-ImmReg high low w1 w2 satadd_imm h h' l =
    parse_code_base high 17 low w1 w2 h l (omega arith)
    ∙ ground (arith, reg2_lem high 17 low w1 w2 h l (omega arith))
parse_code-ImmReg high low w1 w2 add_imm h h' l =
    parse_code_base high 18 low w1 w2 h l (omega arith)
parse_code-ImmReg high low w1 w2 cmp_imm h h' l =
    parse_code_base high 19 low w1 w2 h l (omega arith)
parse_code-ImmReg high low w1 w2 shr_imm h h' l =
    parse_code_base high 20 low w1 w2 h l (omega arith)
parse_code-ImmReg high low w1 w2 sar_imm h h' l =
    parse_code_base high 21 low w1 w2 h l (omega arith)
parse_code-ImmReg high low w1 w2 shl_imm h h' l =
    parse_code_base high 22 low w1 w2 h l (omega arith)
parse_code-ImmReg high low w1 w2 mulh_imm h h' l =
    parse_code_base high 23 low w1 w2 h l (omega arith)
    ∙ ground (arith, reg2_lem high 23 low w1 w2 h l (omega arith))

-- An assembled instruction of format 1 with registers other than r0 is parsed to its operation,
-- whatever follows it in memory, and its operands are the ones assembled.
pub op_parse-RegReg :
    {c : OpCodeId} (t : OpCodeFormatType1) (w1 w2 : ℕ) (d : OpDecodedCode)
    → RegReg t.opcode c
    → t.reg2 < 32
    → 0 < t.reg2
    → t.reg1 < 32
    → 0 < t.reg1
    → op_parse (assembled t.reg2 t.opcode t.reg1 w1 w2) d
      ≡ (some (op c format_1), record d { type1 = t })
unfolding op_parse decode_op op_decoder
op_parse-RegReg t w1 w2 d kind h h' l l' =
    let o = RegReg-opcode kind in
    rw
      (
        parse_code-RegReg t.reg2 t.reg1 w1 w2 kind h h' l l',
        high_field t.reg2 t.opcode t.reg1 w1 w2 h l o,
        opcode_field t.reg2 t.opcode t.reg1 w1 w2 h l o,
        low_field t.reg2 t.opcode t.reg1 w1 w2 h l o,
      )
      refl

-- An assembled instruction of format 2 with a register other than r0 is parsed to its operation,
-- whatever follows it in memory, and its operands are the ones assembled.
pub op_parse-ImmReg :
    {c : OpCodeId} (t : OpCodeFormatType2) (w1 w2 : ℕ) (d : OpDecodedCode)
    → ImmReg t.opcode c
    → t.reg2 < 32
    → 0 < t.reg2
    → t.imm < 32
    → op_parse (assembled t.reg2 t.opcode t.imm w1 w2) d
      ≡ (some (op c format_2), record d { type2 = t })
unfolding op_parse decode_op op_decoder
op_parse-ImmReg t w1 w2 d kind h h' l =
    let o = ImmReg-opcode kind in
    rw
      (
        parse_code-ImmReg t.reg2 t.imm w1 w2 kind h h' l,
        high_field t.reg2 t.opcode t.imm w1 w2 h l o,
        opcode_field t.reg2 t.opcode t.imm w1 w2 h l o,
        low_field t.reg2 t.opcode t.imm w1 w2 h l o,
      )
      refl
