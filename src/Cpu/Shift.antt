-- ===== src/Cpu/Shift.antt =====
-- The shifts, src/cpu/cpu_exec/op_exec_logic.c.
pub mod Carry
use athrill_target_rh850f1x.Base.{
  ℕ, zero, suc, ◌+◌, ◌-◌, ◌*◌, ◌/◌, ◌%◌, ◌^◌, bit_and, bit_or, bit_xor, Bool, true, false, not,
  ◌&&◌, ◌||◌, if◌then◌else◌, leb, ltb, ◌==◌, ℤ, pos, negsuc, ◌+ℤ◌, ◌*ℤ◌, neg_ℤ, quot_ℤ, rem_ℤ,
  ltb_ℤ, signed32, signed16, signed8, word32, word64, Option, none, some, List, get_or, set,
}
use athrill_target_rh850f1x.Cpu.State.{
  CpuRegister, Status, ok, failed, fault, greg_num, read_reg, write_reg, advance, OpCodeFormatType2,
  OpCodeFormatType9, OpCodeFormatType11,
}
use athrill_target_rh850f1x.Cpu.Psw.{
  cpu_set_z, cpu_clr_z, cpu_isset_z, cpu_set_s, cpu_clr_s, cpu_isset_s, cpu_set_ov, cpu_clr_ov,
  cpu_isset_ov, cpu_set_cy, cpu_clr_cy, cpu_isset_cy, cpu_set_sat, cpu_isset_sat,
  op_chk_and_set_carry, op_chk_and_set_carry3, op_chk_and_set_borrow, op_chk_and_set_borrow3,
  op_chk_and_set_overflow, op_chk_and_set_overflow3, op_chk_and_set_zero, op_chk_and_set_sign,
}
use athrill_target_rh850f1x.Cpu.Ops.{
  add32, sub32, is_zero_ℤ, op_addi, op_andi, op_and, op_or, op_movea, op_movhi, op_mulhi, op_ori,
  op_satadd, op_xori,
}
use athrill_target_rh850f1x.Cpu.Ops.Extend.{
  op_sign_extend, op_zero_extend, op_format2_imm_sign_extend, op_format2_imm_zero_extend,
}

-- The last bit shifted out to the left.
unfoldable pub op_chk_and_set_shl_carry : CpuRegister → ℕ → ℕ → CpuRegister
op_chk_and_set_shl_carry c word sh =
    if ltb 0 sh
    then if bit_and word (2 ^ (32 - sh)) == 0 then cpu_clr_cy c else cpu_set_cy c
    else cpu_clr_cy c

-- The last bit shifted out to the right.
unfoldable pub op_chk_and_set_shr_carry : CpuRegister → ℕ → ℕ → CpuRegister
op_chk_and_set_shr_carry c word sh =
    if ltb 0 sh
    then if bit_and word (2 ^ (sh - 1)) == 0 then cpu_clr_cy c else cpu_set_cy c
    else cpu_clr_cy c

-- `<<` and `>>` of a uint32
abbrev pub shl32 : ℕ → ℕ → ℕ
shl32 word sh = word * 2 ^ sh % 2 ^ 32

abbrev pub shr32 : ℕ → ℕ → ℕ
shr32 word sh = word / 2 ^ sh

-- `>>` of a sint32, which copies the sign
abbrev pub sar32 : ℕ → ℕ → ℕ
sar32 word sh =
    if ltb word (2 ^ 31) then word / 2 ^ sh else 2 ^ 32 - 1 - (2 ^ 32 - 1 - word) / 2 ^ sh

-- After a shift: the result into `dst`, OV off, the carry by `chk`, Z and S from r[reg2].
unfoldable pub finish_shift :
    (CpuRegister → ℕ → ℕ → CpuRegister) → ℕ → ℕ → ℕ → ℕ → ℕ → ℕ → CpuRegister → Status × CpuRegister
finish_shift chk size dst reg2 reg2_data sh result c =
    let c1 = cpu_clr_ov (write_reg c dst result) in
    let c2 = chk c1 reg2_data sh in
    let c3 = op_chk_and_set_zero c2 (read_reg c2 reg2) in
    (ok, advance size (op_chk_and_set_sign c3 (read_reg c3 reg2)))

unfoldable pub op_exec_shl_2 : OpCodeFormatType2 → CpuRegister → Status × CpuRegister
unfolding finish_shift
op_exec_shl_2 op c =
    if leb greg_num op.reg2
    then (failed, c)
    else (let reg2_data = read_reg c op.reg2 in
        let sh = op_format2_imm_zero_extend op.imm in
        finish_shift op_chk_and_set_shl_carry 2 op.reg2 op.reg2 reg2_data sh (shl32 reg2_data sh) c)

unfoldable pub op_exec_shr_2 : OpCodeFormatType2 → CpuRegister → Status × CpuRegister
unfolding finish_shift
op_exec_shr_2 op c =
    if leb greg_num op.reg2
    then (failed, c)
    else (let reg2_data = read_reg c op.reg2 in
        let sh = op_format2_imm_zero_extend op.imm in
        finish_shift op_chk_and_set_shr_carry 2 op.reg2 op.reg2 reg2_data sh (shr32 reg2_data sh) c)

unfoldable pub op_exec_sar_2 : OpCodeFormatType2 → CpuRegister → Status × CpuRegister
unfolding finish_shift
op_exec_sar_2 op c =
    if leb greg_num op.reg2
    then (failed, c)
    else (let reg2_data = read_reg c op.reg2 in
        let sh = op_format2_imm_zero_extend op.imm in
        finish_shift op_chk_and_set_shr_carry 2 op.reg2 op.reg2 reg2_data sh (sar32 reg2_data sh) c)

unfoldable pub op_exec_shl_9 : OpCodeFormatType9 → CpuRegister → Status × CpuRegister
unfolding finish_shift
op_exec_shl_9 op c =
    if leb greg_num op.gen
    then (failed, c)
    else if leb greg_num op.reg2
    then (failed, c)
    else (let reg2_data = read_reg c op.reg2 in
        let sh = bit_and (read_reg c op.gen) 0x1f in
        finish_shift op_chk_and_set_shl_carry 4 op.reg2 op.reg2 reg2_data sh (shl32 reg2_data sh) c)

unfoldable pub op_exec_shr_9 : OpCodeFormatType9 → CpuRegister → Status × CpuRegister
unfolding finish_shift
op_exec_shr_9 op c =
    if leb greg_num op.gen
    then (failed, c)
    else if leb greg_num op.reg2
    then (failed, c)
    else (let reg2_data = read_reg c op.reg2 in
        let sh = bit_and (read_reg c op.gen) 0x1f in
        finish_shift op_chk_and_set_shr_carry 4 op.reg2 op.reg2 reg2_data sh (shr32 reg2_data sh) c)

unfoldable pub op_exec_sar_9 : OpCodeFormatType9 → CpuRegister → Status × CpuRegister
unfolding finish_shift
op_exec_sar_9 op c =
    if leb greg_num op.gen
    then (failed, c)
    else if leb greg_num op.reg2
    then (failed, c)
    else (let reg2_data = read_reg c op.reg2 in
        let sh = bit_and (read_reg c op.gen) 0x1f in
        finish_shift op_chk_and_set_shr_carry 4 op.reg2 op.reg2 reg2_data sh (sar32 reg2_data sh) c)

unfoldable pub op_exec_shl_11 : OpCodeFormatType11 → CpuRegister → Status × CpuRegister
unfolding finish_shift
op_exec_shl_11 op c =
    if leb greg_num op.reg1
    then (failed, c)
    else if leb greg_num op.reg2
    then (failed, c)
    else if leb greg_num op.reg3
    then (failed, c)
    else (let reg2_data = read_reg c op.reg2 in
        let sh = bit_and (read_reg c op.reg1) 0x1f in
        finish_shift op_chk_and_set_shl_carry 4 op.reg3 op.reg2 reg2_data sh (shl32 reg2_data sh) c)

unfoldable pub op_exec_shr_11 : OpCodeFormatType11 → CpuRegister → Status × CpuRegister
unfolding finish_shift
op_exec_shr_11 op c =
    if leb greg_num op.reg1
    then (failed, c)
    else if leb greg_num op.reg2
    then (failed, c)
    else if leb greg_num op.reg3
    then (failed, c)
    else (let reg2_data = read_reg c op.reg2 in
        let sh = bit_and (read_reg c op.reg1) 0x1f in
        finish_shift op_chk_and_set_shr_carry 4 op.reg3 op.reg2 reg2_data sh (shr32 reg2_data sh) c)

-- Here the shifted value is a uint32, so the shift does not copy the sign.
unfoldable pub op_exec_sar_11 : OpCodeFormatType11 → CpuRegister → Status × CpuRegister
unfolding finish_shift
op_exec_sar_11 op c =
    if leb greg_num op.reg1
    then (failed, c)
    else if leb greg_num op.reg2
    then (failed, c)
    else if leb greg_num op.reg3
    then (failed, c)
    else (let reg2_data = read_reg c op.reg2 in
        let sh = bit_and (read_reg c op.reg1) 0x1f in
        finish_shift op_chk_and_set_shr_carry 4 op.reg3 op.reg2 reg2_data sh (shr32 reg2_data sh) c)
