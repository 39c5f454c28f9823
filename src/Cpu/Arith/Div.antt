-- ===== src/Cpu/Arith/Div.antt =====
-- The divisions of three registers, src/cpu/cpu_exec/op_exec_arithm.c. A division by zero in C is
-- `fault`, and so is that of the least sint32 by -1.
pub mod Faults
pub mod Quotient
pub mod Signed
use athrill_target_rh850f1x.Base.{
  ℕ, zero, suc, ◌+◌, ◌-◌, ◌*◌, ◌/◌, ◌%◌, ◌^◌, bit_and, bit_or, bit_xor, Bool, true, false, not,
  ◌&&◌, ◌||◌, if◌then◌else◌, leb, ltb, ◌==◌, ℤ, pos, negsuc, ◌+ℤ◌, ◌*ℤ◌, neg_ℤ, quot_ℤ, rem_ℤ,
  ltb_ℤ, signed32, signed16, signed8, word32, word64, Option, none, some, List, get_or, set,
}
use athrill_target_rh850f1x.Cpu.State.{
  CpuRegister, Status, ok, failed, fault, greg_num, read_reg, write_reg, advance,
  OpCodeFormatType11,
}
use athrill_target_rh850f1x.Cpu.Psw.{
  cpu_set_z, cpu_clr_z, cpu_isset_z, cpu_set_s, cpu_clr_s, cpu_isset_s, cpu_set_ov, cpu_clr_ov,
  cpu_isset_ov, cpu_set_cy, cpu_clr_cy, cpu_isset_cy, cpu_set_sat, cpu_isset_sat,
  op_chk_and_set_carry, op_chk_and_set_carry3, op_chk_and_set_borrow, op_chk_and_set_borrow3,
  op_chk_and_set_overflow, op_chk_and_set_overflow3, op_chk_and_set_zero, op_chk_and_set_sign,
}
use athrill_target_rh850f1x.Cpu.Ops.{
  add32, sub32, is_zero_ℤ, op_addi, op_andi, op_and, op_or, op_movea, op_movhi, op_mulhi, op_ori,
  op_satadd, op_xori,
}
use athrill_target_rh850f1x.Cpu.Ops.Extend.{
  op_sign_extend, op_zero_extend, op_format2_imm_sign_extend, op_format2_imm_zero_extend,
}
use athrill_target_rh850f1x.Cpu.Arith.Format1.{finish_div}

unfoldable pub op_exec_divu : OpCodeFormatType11 → CpuRegister → Status × CpuRegister
unfolding finish_div
op_exec_divu op c =
    let reg1_data = read_reg c op.reg1 in
    let reg2_data = read_reg c op.reg2 in
    if leb greg_num op.reg1
    then (failed, c)
    else if leb greg_num op.reg2
    then (failed, c)
    else if leb greg_num op.reg3
    then (failed, c)
    else if reg1_data == 0
    then finish_div 4 op.reg2 (cpu_set_ov c)
    else (let c1 = cpu_clr_ov c in
        let c2 = write_reg c1 op.reg2 (reg2_data / reg1_data) in
        finish_div 4 op.reg2 (write_reg c2 op.reg3 (reg2_data % reg1_data)))

unfoldable pub op_exec_divhu : OpCodeFormatType11 → CpuRegister → Status × CpuRegister
unfolding finish_div
op_exec_divhu op c =
    let reg1_data = read_reg c op.reg1 in
    let reg2_data = read_reg c op.reg2 in
    if leb greg_num op.reg1
    then (failed, c)
    else if leb greg_num op.reg2
    then (failed, c)
    else if leb greg_num op.reg3
    then (failed, c)
    else if reg1_data == 0
    then finish_div 4 op.reg2 (cpu_set_ov c)
    else if reg1_data % 2 ^ 16 == 0
    then (fault, cpu_clr_ov c)
    else (let c1 = cpu_clr_ov c in
        let c2 = write_reg c1 op.reg2 (reg2_data / (reg1_data % 2 ^ 16)) in
        finish_div 4 op.reg2 (write_reg c2 op.reg3 (reg2_data % (reg1_data % 2 ^ 16))))

unfoldable pub op_exec_divqu_11 : OpCodeFormatType11 → CpuRegister → Status × CpuRegister
unfolding finish_div
op_exec_divqu_11 op c =
    let reg1_data = read_reg c op.reg1 in
    let reg2_data = read_reg c op.reg2 in
    if leb greg_num op.reg1
    then (failed, c)
    else if leb greg_num op.reg2
    then (failed, c)
    else if leb greg_num op.reg3
    then (failed, c)
    else if reg1_data == 0
    then finish_div 4 op.reg2 (cpu_set_ov c)
    else (let c1 = cpu_clr_ov c in
        let c2 = write_reg c1 op.reg2 (reg2_data / reg1_data) in
        finish_div 4 op.reg2 (write_reg c2 op.reg3 (reg2_data % reg1_data)))

-- A divisor whose lower half is 0xffff is -1.
unfoldable pub op_exec_divh_11 : OpCodeFormatType11 → CpuRegister → Status × CpuRegister
unfolding finish_div
op_exec_divh_11 op c =
    let reg1_data = read_reg c op.reg1 in
    let reg2_data = read_reg c op.reg2 in
    if leb greg_num op.reg1
    then (failed, c)
    else if leb greg_num op.reg2
    then (failed, c)
    else if leb greg_num op.reg3
    then (failed, c)
    else if reg1_data == 0
    then finish_div 4 op.reg2 (cpu_set_ov c)
    else if is_zero_ℤ (signed16 reg1_data)
    then (fault, cpu_clr_ov c)
    else if reg1_data % 2 ^ 16 == 0xffff && reg2_data == 0x8000_0000
    then (fault, cpu_clr_ov c)
    else (let c1 = cpu_clr_ov c in
        let c2 = write_reg c1 op.reg2 (word32 (quot_ℤ (signed32 reg2_data) (signed16 reg1_data))) in
        finish_div 4 op.reg2
          (write_reg c2 op.reg3 (word32 (rem_ℤ (signed32 reg2_data) (signed16 reg1_data)))))

-- OV is set before the division that has no sint32 result.
unfoldable pub op_exec_div_common : OpCodeFormatType11 → CpuRegister → Status × CpuRegister
unfolding finish_div
op_exec_div_common op c =
    let reg1_data = read_reg c op.reg1 in
    let reg2_data = read_reg c op.reg2 in
    if leb greg_num op.reg1
    then (failed, c)
    else if leb greg_num op.reg2
    then (failed, c)
    else if leb greg_num op.reg3
    then (failed, c)
    else if reg1_data == 0
    then finish_div 4 op.reg2 (cpu_set_ov c)
    else if reg1_data == 0xffff_ffff && reg2_data == 0x8000_0000
    then (fault, cpu_set_ov c)
    else (let c1 = cpu_clr_ov c in
        let c2 = write_reg c1 op.reg2 (word32 (quot_ℤ (signed32 reg2_data) (signed32 reg1_data))) in
        finish_div 4 op.reg2
          (write_reg c2 op.reg3 (word32 (rem_ℤ (signed32 reg2_data) (signed32 reg1_data)))))

unfoldable pub op_exec_div : OpCodeFormatType11 → CpuRegister → Status × CpuRegister
op_exec_div op c = op_exec_div_common op c

unfoldable pub op_exec_divq : OpCodeFormatType11 → CpuRegister → Status × CpuRegister
op_exec_divq op c = op_exec_div_common op c
