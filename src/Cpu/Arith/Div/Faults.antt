-- ===== src/Cpu/Arith/Div/Faults.antt =====
-- Where the divisions leave C undefined.
use athrill_target_rh850f1x.Base.{ℕ, ◌%◌, ◌^◌, ◌<◌, ◌≡◌, ◌≢◌, ◌↔◌, ◌⊎◌, arith}
use athrill_target_rh850f1x.Cpu.State.{
  CpuRegister, ok, fault, greg_num, read_reg, OpCodeFormatType1, OpCodeFormatType11,
}
use athrill_target_rh850f1x.Cpu.Arith.Format1.{op_exec_divh_1}
use athrill_target_rh850f1x.Cpu.Arith.Div.{
  op_exec_divu, op_exec_divhu, op_exec_divqu_11, op_exec_divh_11, op_exec_div_common, op_exec_div,
  op_exec_divq,
}

module _ (op : OpCodeFormatType11) (c : CpuRegister) where
  -- The three registers exist.
  abbrev pub InRange : Type 0
  InRange = (op.reg1 < greg_num) × (op.reg2 < greg_num) × (op.reg3 < greg_num)

  -- The operands of the DIVH of two registers.
  abbrev pub two_registers : OpCodeFormatType1
  two_registers = record { opcode = op.opcode; reg1 = op.reg1; reg2 = op.reg2 }

  -- The divisor is not 0, but its lower half is.
  abbrev pub NoHalf : Type 0
  NoHalf = (read_reg c op.reg1 ≢ 0) × (read_reg c op.reg1 % 2 ^ 16 ≡ 0)

  -- The divisor has the pattern of -1, and the dividend is the least sint32.
  abbrev pub Over : ℕ → ℕ → Type 0
  Over divisor minus_one = (divisor ≡ minus_one) × (read_reg c op.reg2 ≡ 0x8000_0000)

  pub div_faults :
      InRange
      → ((op_exec_divu op c).0 ≡ ok)
        × ((op_exec_divqu_11 op c).0 ≡ ok)
        × (((op_exec_divhu op c).0 ≡ fault) ↔ NoHalf)
        × (((op_exec_divh_11 op c).0 ≡ fault)
            ↔ (NoHalf ⊎ Over (read_reg c op.reg1 % 2 ^ 16) 0xffff))
        × (((op_exec_divh_1 two_registers c).0 ≡ fault)
            ↔ (NoHalf ⊎ Over (read_reg c op.reg1 % 2 ^ 16) 0xffff))
        × (((op_exec_div op c).0 ≡ fault) ↔ Over (read_reg c op.reg1) 0xffff_ffff)
        × (((op_exec_divq op c).0 ≡ fault) ↔ Over (read_reg c op.reg1) 0xffff_ffff)
  unfolding op_exec_divu op_exec_divqu_11 op_exec_divhu op_exec_divh_11 op_exec_divh_1 op_exec_div
      op_exec_divq op_exec_div_common
  div_faults h = (
    ground arith,
    ground arith,
    (ground arith, ground arith),
    (ground arith, ground arith),
    (ground arith, ground arith),
    (ground arith, ground arith),
    (ground arith, ground arith),
  )
