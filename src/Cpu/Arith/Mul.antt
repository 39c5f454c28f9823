-- ===== src/Cpu/Arith/Mul.antt =====
-- The multiplications, src/cpu/cpu_exec/op_exec_arithm.c. A 64-bit result goes into two registers,
-- the lower half first.
pub mod Product
use athrill_target_rh850f1x.Base.{
  ℕ, zero, suc, ◌+◌, ◌-◌, ◌*◌, ◌/◌, ◌%◌, ◌^◌, bit_and, bit_or, bit_xor, Bool, true, false, not,
  ◌&&◌, ◌||◌, if◌then◌else◌, leb, ltb, ◌==◌, ℤ, pos, negsuc, ◌+ℤ◌, ◌*ℤ◌, neg_ℤ, quot_ℤ, rem_ℤ,
  ltb_ℤ, signed32, signed16, signed8, word32, word64, Option, none, some, List, get_or, set,
}
use athrill_target_rh850f1x.Cpu.State.{
  CpuRegister, Status, ok, failed, fault, greg_num, read_reg, write_reg, advance,
  OpCodeFormatType11, OpCodeFormatType12,
}
use athrill_target_rh850f1x.Cpu.Psw.{
  cpu_set_z, cpu_clr_z, cpu_isset_z, cpu_set_s, cpu_clr_s, cpu_isset_s, cpu_set_ov, cpu_clr_ov,
  cpu_isset_ov, cpu_set_cy, cpu_clr_cy, cpu_isset_cy, cpu_set_sat, cpu_isset_sat,
  op_chk_and_set_carry, op_chk_and_set_carry3, op_chk_and_set_borrow, op_chk_and_set_borrow3,
  op_chk_and_set_overflow, op_chk_and_set_overflow3, op_chk_and_set_zero, op_chk_and_set_sign,
}
use athrill_target_rh850f1x.Cpu.Ops.{
  add32, sub32, is_zero_ℤ, op_addi, op_andi, op_and, op_or, op_movea, op_movhi, op_mulhi, op_ori,
  op_satadd, op_xori,
}
use athrill_target_rh850f1x.Cpu.Ops.Extend.{
  op_sign_extend, op_zero_extend, op_format2_imm_sign_extend, op_format2_imm_zero_extend,
}

unfoldable pub op_exec_mul : OpCodeFormatType11 → CpuRegister → Status × CpuRegister
op_exec_mul op c =
    let reg1_data = read_reg c op.reg1 in
    let reg2_data = read_reg c op.reg2 in
    if leb greg_num op.reg1
    then (failed, c)
    else if leb greg_num op.reg2
    then (failed, c)
    else if leb greg_num op.reg3
    then (failed, c)
    else (let result_u = word64 (signed32 reg1_data *ℤ signed32 reg2_data) in
        let c1 = write_reg c op.reg2 (result_u % 2 ^ 32) in
        (ok, advance 4 (write_reg c1 op.reg3 (result_u / 2 ^ 32))))

unfoldable pub op_exec_mulu : OpCodeFormatType11 → CpuRegister → Status × CpuRegister
op_exec_mulu op c =
    let reg1_data = read_reg c op.reg1 in
    let reg2_data = read_reg c op.reg2 in
    if leb greg_num op.reg1
    then (failed, c)
    else if leb greg_num op.reg2
    then (failed, c)
    else if leb greg_num op.reg3
    then (failed, c)
    else (let result_u = reg1_data * reg2_data % 2 ^ 64 in
        let c1 = write_reg c op.reg2 (result_u % 2 ^ 32) in
        (ok, advance 4 (write_reg c1 op.reg3 (result_u / 2 ^ 32))))

-- `((immh & 0xF) << 5) | imml`
abbrev pub imm9_12 : OpCodeFormatType12 → ℕ
imm9_12 op = bit_or (bit_and op.immh 0xf * 2 ^ 5) op.imml

unfoldable pub op_exec_mulu_12 : OpCodeFormatType12 → CpuRegister → Status × CpuRegister
op_exec_mulu_12 op c =
    if leb greg_num op.reg2
    then (failed, c)
    else if leb greg_num op.reg3
    then (failed, c)
    else (let result = read_reg c op.reg2 * imm9_12 op % 2 ^ 64 in
        let c1 = write_reg c op.reg2 (result % 2 ^ 32) in
        (ok, advance 4 (write_reg c1 op.reg3 (result / 2 ^ 32))))

unfoldable pub op_exec_mul_12 : OpCodeFormatType12 → CpuRegister → Status × CpuRegister
op_exec_mul_12 op c =
    if leb greg_num op.reg2
    then (failed, c)
    else if leb greg_num op.reg3
    then (failed, c)
    else (let imm9 = signed32 (op_sign_extend 8 (imm9_12 op)) in
        let result = word64 (signed32 (read_reg c op.reg2) *ℤ imm9) in
        let c1 = write_reg c op.reg2 (result % 2 ^ 32) in
        (ok, advance 4 (write_reg c1 op.reg3 (result / 2 ^ 32))))

-- `((rfu << 1) | sub2) << 1`
abbrev pub reg4_11 : OpCodeFormatType11 → ℕ
reg4_11 op = bit_or (op.rfu * 2) op.sub2 * 2

-- A register as a sint64, in its pattern of 64 bits.
abbrev pub sint64_reg : CpuRegister → ℕ → ℕ
sint64_reg c i = word64 (signed32 (read_reg c i))

-- The halves are joined by `|`: the lower one is sign-extended.
unfoldable pub op_exec_mac_11 : OpCodeFormatType11 → CpuRegister → Status × CpuRegister
op_exec_mac_11 op c =
    let reg4 = reg4_11 op in
    let result1 = word64 (signed32 (read_reg c op.reg2) *ℤ signed32 (read_reg c op.reg1)) in
    let result2 = bit_or (sint64_reg c (op.reg3 + 1) * 2 ^ 32 % 2 ^ 64) (sint64_reg c op.reg3) in
    let result = (result1 + result2) % 2 ^ 64 in
    if leb greg_num op.reg1
    then (failed, c)
    else if leb greg_num op.reg2
    then (failed, c)
    else if leb greg_num op.reg3
    then (failed, c)
    else if leb greg_num reg4
    then (failed, c)
    else if op.reg3 % 2 == 0
    then (if reg4 % 2 == 0
        then (let c1 = write_reg c reg4 (result % 2 ^ 32) in
            (ok, advance 4 (write_reg c1 (reg4 + 1) (result / 2 ^ 32))))
        else (failed, c))
    else (failed, c)

unfoldable pub op_exec_macu_11 : OpCodeFormatType11 → CpuRegister → Status × CpuRegister
op_exec_macu_11 op c =
    let reg4 = reg4_11 op in
    let result1 = read_reg c op.reg2 * read_reg c op.reg1 % 2 ^ 64 in
    let result2 = bit_or (read_reg c (op.reg3 + 1) * 2 ^ 32 % 2 ^ 64) (read_reg c op.reg3) in
    let result = (result1 + result2) % 2 ^ 64 in
    if leb greg_num op.reg1
    then (failed, c)
    else if leb greg_num op.reg2
    then (failed, c)
    else if leb greg_num op.reg3
    then (failed, c)
    else if leb greg_num reg4
    then (failed, c)
    else if op.reg3 % 2 == 0
    then (if reg4 % 2 == 0
        then (let c1 = write_reg c reg4 (result % 2 ^ 32) in
            (ok, advance 4 (write_reg c1 (reg4 + 1) (result / 2 ^ 32))))
        else (failed, c))
    else (failed, c)
