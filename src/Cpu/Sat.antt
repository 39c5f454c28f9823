-- ===== src/Cpu/Sat.antt =====
-- The saturating operations, src/cpu/cpu_exec/op_exec_sat.c.
pub mod Clamp
use athrill_target_rh850f1x.Base.{
  ℕ, zero, suc, ◌+◌, ◌-◌, ◌*◌, ◌/◌, ◌%◌, ◌^◌, bit_and, bit_or, bit_xor, Bool, true, false, not,
  ◌&&◌, ◌||◌, if◌then◌else◌, leb, ltb, ◌==◌, ℤ, pos, negsuc, ◌+ℤ◌, ◌*ℤ◌, neg_ℤ, quot_ℤ, rem_ℤ,
  ltb_ℤ, signed32, signed16, signed8, word32, word64, Option, none, some, List, get_or, set,
}
use athrill_target_rh850f1x.Cpu.State.{
  CpuRegister, Status, ok, failed, fault, greg_num, read_reg, write_reg, advance, OpCodeFormatType1,
  OpCodeFormatType2, OpCodeFormatType6, OpCodeFormatType11,
}
use athrill_target_rh850f1x.Cpu.Psw.{
  cpu_set_z, cpu_clr_z, cpu_isset_z, cpu_set_s, cpu_clr_s, cpu_isset_s, cpu_set_ov, cpu_clr_ov,
  cpu_isset_ov, cpu_set_cy, cpu_clr_cy, cpu_isset_cy, cpu_set_sat, cpu_isset_sat,
  op_chk_and_set_carry, op_chk_and_set_carry3, op_chk_and_set_borrow, op_chk_and_set_borrow3,
  op_chk_and_set_overflow, op_chk_and_set_overflow3, op_chk_and_set_zero, op_chk_and_set_sign,
}
use athrill_target_rh850f1x.Cpu.Ops.{
  add32, sub32, is_zero_ℤ, op_addi, op_andi, op_and, op_or, op_movea, op_movhi, op_mulhi, op_ori,
  op_satadd, op_xori,
}
use athrill_target_rh850f1x.Cpu.Ops.Extend.{
  op_sign_extend, op_zero_extend, op_format2_imm_sign_extend, op_format2_imm_zero_extend,
}

unfoldable pub op_exec_satadd_1 : OpCodeFormatType1 → CpuRegister → Status × CpuRegister
op_exec_satadd_1 op c =
    if leb greg_num op.reg1
    then (failed, c)
    else if leb greg_num op.reg2
    then (failed, c)
    else (let (result, c1) = op_satadd c (read_reg c op.reg2) (signed32 (read_reg c op.reg1)) in
        (ok, advance 2 (write_reg c1 op.reg2 result)))

unfoldable pub op_exec_satsub_1 : OpCodeFormatType1 → CpuRegister → Status × CpuRegister
op_exec_satsub_1 op c =
    if leb greg_num op.reg1
    then (failed, c)
    else if leb greg_num op.reg2
    then (failed, c)
    else (let (result, c1) =
          op_satadd c (read_reg c op.reg2) (neg_ℤ (signed32 (read_reg c op.reg1))) in
        (ok, advance 2 (write_reg c1 op.reg2 result)))

unfoldable pub op_exec_satsubr_1 : OpCodeFormatType1 → CpuRegister → Status × CpuRegister
op_exec_satsubr_1 op c =
    if leb greg_num op.reg1
    then (failed, c)
    else if leb greg_num op.reg2
    then (failed, c)
    else (let (result, c1) =
          op_satadd c (read_reg c op.reg1) (neg_ℤ (signed32 (read_reg c op.reg2))) in
        (ok, advance 2 (write_reg c1 op.reg2 result)))

unfoldable pub op_exec_satadd_2 : OpCodeFormatType2 → CpuRegister → Status × CpuRegister
op_exec_satadd_2 op c =
    let imm_data = op_format2_imm_sign_extend op.imm in
    if leb greg_num op.reg2
    then (failed, c)
    else (let (result, c1) = op_satadd c (read_reg c op.reg2) (signed32 imm_data) in
        (ok, advance 2 (write_reg c1 op.reg2 result)))

unfoldable pub op_exec_satsubi : OpCodeFormatType6 → CpuRegister → Status × CpuRegister
op_exec_satsubi op c =
    let imm_data = op_sign_extend 15 op.imm in
    if leb greg_num op.reg1
    then (failed, c)
    else if leb greg_num op.reg2
    then (failed, c)
    else (let (result, c1) = op_satadd c (read_reg c op.reg1) (neg_ℤ (signed32 imm_data)) in
        (ok, advance 4 (write_reg c1 op.reg2 result)))

unfoldable pub op_exec_satadd_11 : OpCodeFormatType11 → CpuRegister → Status × CpuRegister
op_exec_satadd_11 op c =
    if leb greg_num op.reg1
    then (failed, c)
    else if leb greg_num op.reg2
    then (failed, c)
    else if leb greg_num op.reg3
    then (failed, c)
    else (let (result, c1) = op_satadd c (read_reg c op.reg2) (signed32 (read_reg c op.reg1)) in
        (ok, advance 4 (write_reg c1 op.reg3 result)))

unfoldable pub op_exec_satsub_11 : OpCodeFormatType11 → CpuRegister → Status × CpuRegister
op_exec_satsub_11 op c =
    if leb greg_num op.reg1
    then (failed, c)
    else if leb greg_num op.reg2
    then (failed, c)
    else if leb greg_num op.reg3
    then (failed, c)
    else (let (result, c1) =
          op_satadd c (read_reg c op.reg2) (neg_ℤ (signed32 (read_reg c op.reg1))) in
        (ok, advance 4 (write_reg c1 op.reg3 result)))
