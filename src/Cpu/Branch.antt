-- ===== src/Cpu/Branch.antt =====
-- Jumps, src/cpu/cpu_exec/op_exec_branch.c. The bus belongs to the emulator's core, so its read of
-- a halfword is a parameter: `none` is an error of the bus.
use athrill_target_rh850f1x.Base.{
  ℕ, ◌*◌, ◌%◌, ◌^◌, bit_or, if◌then◌else◌, leb, ltb, Option, none, some,
}
use athrill_target_rh850f1x.Cpu.State.{
  CpuRegister, Status, ok, failed, greg_num, read_reg, write_reg, OpCodeFormatType1,
  OpCodeFormatType5, OpCodeFormatType6,
}
use athrill_target_rh850f1x.Cpu.Ops.{add32}
use athrill_target_rh850f1x.Cpu.Ops.Extend.{op_sign_extend}

unfoldable pub op_exec_jmp : OpCodeFormatType1 → CpuRegister → Status × CpuRegister
op_exec_jmp op c =
    if leb greg_num op.reg1 then (failed, c) else (ok, record c { pc = read_reg c op.reg1 })

-- `jarl` where reg2 is not 0.
unfoldable pub op_exec_jr : OpCodeFormatType5 → CpuRegister → Status × CpuRegister
op_exec_jr op c =
    let c1 = if ltb 0 op.reg2 then write_reg c op.reg2 (add32 c.pc 4) else c in
    (ok, record c1 { pc = add32 c.pc (op_sign_extend 21 op.disp) })

module _ (bus_get_data16 : ℕ → Option ℕ) where
  -- The upper half of the displacement follows the instruction.
  unfoldable pub op_exec_parse_jmp_addr_fmt6 : OpCodeFormatType6 → CpuRegister → Option ℕ
  op_exec_parse_jmp_addr_fmt6 op c = elim (bus_get_data16 (add32 c.pc 4)) [
    | none ↦ none
    | some imm_high16 ↦ some (bit_or (imm_high16 * 2 ^ 16 % 2 ^ 32) op.imm)
  ]

  unfoldable pub op_exec_jmp_6 : OpCodeFormatType6 → CpuRegister → Status × CpuRegister
  unfolding op_exec_parse_jmp_addr_fmt6
  op_exec_jmp_6 op c =
      if leb greg_num op.reg1 then (failed, c) else elim (op_exec_parse_jmp_addr_fmt6 op c) [
        | none ↦ (failed, c)
        | some disp ↦ (ok, record c { pc = add32 (read_reg c op.reg1) disp })
      ]

  unfoldable pub op_exec_jarl_6 : OpCodeFormatType6 → CpuRegister → Status × CpuRegister
  unfolding op_exec_parse_jmp_addr_fmt6
  op_exec_jarl_6 op c = elim (op_exec_parse_jmp_addr_fmt6 op c) [
    | none ↦ (failed, c)
    | some disp ↦
        let c1 = write_reg c op.reg1 (add32 c.pc 6) in (ok, record c1 { pc = add32 c.pc disp })
  ]

  unfoldable pub op_exec_jr_6 : OpCodeFormatType6 → CpuRegister → Status × CpuRegister
  unfolding op_exec_parse_jmp_addr_fmt6
  op_exec_jr_6 op c = elim (op_exec_parse_jmp_addr_fmt6 op c) [
    | none ↦ (failed, c)
    | some disp ↦ (ok, record c { pc = add32 c.pc disp })
  ]
