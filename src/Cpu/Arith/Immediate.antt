-- ===== src/Cpu/Arith/Immediate.antt =====
-- The operations with an immediate of src/cpu/cpu_exec/op_exec_arithm.c: formats 2 and 6.
pub mod Effects
mod Tests
use athrill_target_rh850f1x.Base.{
  ℕ, ◌*◌, ◌%◌, ◌^◌, bit_or, if◌then◌else◌, leb, ◌*ℤ◌, signed32, signed16, word32, Option, none,
  some,
}
use athrill_target_rh850f1x.Cpu.State.{
  CpuRegister, Status, ok, failed, greg_num, read_reg, write_reg, advance, OpCodeFormatType2,
  OpCodeFormatType6,
}
use athrill_target_rh850f1x.Cpu.Ops.{add32, sub32, op_addi, op_movea, op_movhi, op_mulhi}
use athrill_target_rh850f1x.Cpu.Ops.Extend.{op_sign_extend, op_format2_imm_sign_extend}
use athrill_target_rh850f1x.Cpu.Arith.Format1.{set_sub_flags, set_add_flags}

unfoldable pub op_exec_cmp_2 : OpCodeFormatType2 → CpuRegister → Status × CpuRegister
op_exec_cmp_2 op c =
    if leb greg_num op.reg2
    then (failed, c)
    else (let reg2_data = read_reg c op.reg2 in
        let imm_data = op_format2_imm_sign_extend op.imm in
        let result = sub32 reg2_data imm_data in
        (ok, advance 2 (set_sub_flags c reg2_data imm_data result)))

unfoldable pub op_exec_add_2 : OpCodeFormatType2 → CpuRegister → Status × CpuRegister
op_exec_add_2 op c =
    if leb greg_num op.reg2
    then (failed, c)
    else (let reg2_data = read_reg c op.reg2 in
        let imm_data = op_format2_imm_sign_extend op.imm in
        let result = add32 reg2_data imm_data in
        let c1 = write_reg c op.reg2 result in
        (ok, advance 2 (set_add_flags c1 reg2_data imm_data result)))

unfoldable pub op_exec_mov_2 : OpCodeFormatType2 → CpuRegister → Status × CpuRegister
op_exec_mov_2 op c =
    if leb greg_num op.reg2
    then (failed, c)
    else (ok, advance 2 (write_reg c op.reg2 (op_format2_imm_sign_extend op.imm)))

unfoldable pub op_exec_mulh_2 : OpCodeFormatType2 → CpuRegister → Status × CpuRegister
op_exec_mulh_2 op c =
    if leb greg_num op.reg2
    then (failed, c)
    else (let imm_data = op_format2_imm_sign_extend op.imm in
        let tmp2 = signed16 (read_reg c op.reg2) in
        (ok, advance 2 (write_reg c op.reg2 (word32 (signed32 imm_data *ℤ tmp2)))))

unfoldable pub op_exec_addi : OpCodeFormatType6 → CpuRegister → Status × CpuRegister
op_exec_addi op c =
    let imm_data = op_sign_extend 15 op.imm in
    if leb greg_num op.reg1
    then (failed, c)
    else if leb greg_num op.reg2
    then (failed, c)
    else (let (result, c1) = op_addi c imm_data (read_reg c op.reg1) in
        (ok, advance 4 (write_reg c1 op.reg2 result)))

unfoldable pub op_exec_movea : OpCodeFormatType6 → CpuRegister → Status × CpuRegister
op_exec_movea op c =
    let imm_data = op_sign_extend 15 op.imm in
    if leb greg_num op.reg1
    then (failed, c)
    else if leb greg_num op.reg2
    then (failed, c)
    else (ok, advance 4 (write_reg c op.reg2 (op_movea imm_data (read_reg c op.reg1))))

-- The upper half of the immediate follows the instruction; the bus belongs to the emulator's core.
unfoldable pub op_exec_mov_6 :
    (ℕ → Option ℕ) → OpCodeFormatType6 → CpuRegister → Status × CpuRegister
op_exec_mov_6 bus_get_data16 op c =
    if leb greg_num op.reg1 then (failed, c) else elim (bus_get_data16 (add32 c.pc 4)) [
      | none ↦ (failed, c)
      | some imm_high16 ↦
          (ok, advance 6 (write_reg c op.reg1 (bit_or op.imm (imm_high16 * 2 ^ 16 % 2 ^ 32))))
    ]

unfoldable pub op_exec_movhi : OpCodeFormatType6 → CpuRegister → Status × CpuRegister
op_exec_movhi op c =
    let imm_data = op_sign_extend 15 op.imm in
    if leb greg_num op.reg1
    then (failed, c)
    else if leb greg_num op.reg2
    then (failed, c)
    else (ok, advance 4 (write_reg c op.reg2 (op_movhi imm_data (read_reg c op.reg1))))

unfoldable pub op_exec_mulhi : OpCodeFormatType6 → CpuRegister → Status × CpuRegister
op_exec_mulhi op c =
    let imm_data = op_sign_extend 15 op.imm in
    if leb greg_num op.reg1
    then (failed, c)
    else if leb greg_num op.reg2
    then (failed, c)
    else (let reg1_data = word32 (signed16 (read_reg c op.reg1)) in
        (ok, advance 4 (write_reg c op.reg2 (op_mulhi imm_data reg1_data))))
