-- ===== src/Cpu/Extra.antt =====
-- The operations that RH850 adds, src/cpu/cpu_exec/op_exec_branch_rh850.c and
-- op_exec_arithm_rh850.c.
pub mod Loop
mod Tests
use athrill_target_rh850f1x.Base.{
  ℕ, zero, suc, ◌+◌, ◌*◌, ◌/◌, ◌-◌, ◌%◌, ◌^◌, bit_and, bit_or, Bool, true, false, if◌then◌else◌,
  leb, ltb, ◌==◌, not, ◌&&◌, pos,
}
use athrill_target_rh850f1x.Cpu.State.{
  CpuRegister, Status, ok, failed, fault, read_reg, write_reg, advance, OpCodeFormatType9,
  OpCodeFormatType11,
}
use athrill_target_rh850f1x.Dec.Format.{OpCodeFormatType7}
use athrill_target_rh850f1x.Cpu.Ops.{add32, sub32}
use athrill_target_rh850f1x.Cpu.Ops.Extend.{op_sign_extend, op_zero_extend}
use athrill_target_rh850f1x.Cpu.Cond.{op_exec_bcond}
use athrill_target_rh850f1x.Cpu.Psw.{
  cpu_set_cy, cpu_clr_cy, cpu_clr_ov, op_chk_and_set_carry, op_chk_and_set_overflow,
  op_chk_and_set_zero, op_chk_and_set_sign,
}

unfoldable pub op_exec_bcond_7 : OpCodeFormatType7 → CpuRegister → Status × CpuRegister
op_exec_bcond_7 op c =
    let cond = bit_and op.reg1 0xf in
    let disp_d = bit_and op.reg1 0x10 / 2 ^ 4 in
    let disp_u = bit_or (disp_d * 2 ^ 15) op.disp * 2 % 2 ^ 32 in
    (ok, op_exec_bcond cond (op_sign_extend 16 disp_u) 4 c)

unfoldable pub op_exec_jarl_11 : OpCodeFormatType11 → CpuRegister → Status × CpuRegister
op_exec_jarl_11 op c =
    let next = read_reg c op.reg1 in
    let c1 = write_reg c op.reg3 (add32 c.pc 4) in (ok, record c1 { pc = next })

-- The two operands of the overflow test are uint32 values, so its sum never is negative.
unfoldable pub op_exec_loop_7 : OpCodeFormatType7 → CpuRegister → Status × CpuRegister
op_exec_loop_7 op c =
    let reg1_data = read_reg c op.reg1 in
    let add_data : ℕ = 0xffff_ffff in
    let result = add32 reg1_data add_data in
    let disp = op_zero_extend 16 (op.disp * 2 % 2 ^ 32) in
    let next = if result == 0 then add32 c.pc 4 else sub32 c.pc disp in
    let c1 = if result == 0 then cpu_clr_cy c else op_chk_and_set_carry c reg1_data add_data in
    let c2 = op_chk_and_set_overflow c1 (pos reg1_data) (pos add_data) in
    let c3 = op_chk_and_set_sign (op_chk_and_set_zero c2 result) result in
    (ok, record (write_reg c3 op.reg1 result) { pc = next })

-- The loop of ROTL, with the rounds left.
unfoldable pub rotate : ℕ → ℕ → ℕ → ℕ → ℕ
rotate zero i reg2 word = word
rotate (suc left) i reg2 word =
    let shifted = word * 2 % 2 ^ 32 in
    rotate left (i + 1) reg2
      (if bit_and reg2 (2 ^ (31 - i)) == 0 then shifted else bit_or shifted 0x1)

-- From round 32 on, C leaves the shift by 31 - i undefined.
unfoldable pub op_exec_rotl_7 : OpCodeFormatType7 → CpuRegister → Status × CpuRegister
unfolding rotate
op_exec_rotl_7 op c =
    let reg3 = bit_and (op.disp / 2 ^ 10) 0x1f in
    let chk = bit_and op.disp 0x3ff in
    let reg2_data = read_reg c op.reg2 in
    let rotate_size =
      if chk == 0b0001100010
      then op_zero_extend 5 op.reg1
      else if chk == 0b0001100011
      then read_reg c op.reg1
      else 0 in
    let reg3_data = rotate rotate_size 0 reg2_data reg2_data in
    let c1 = write_reg c reg3 reg3_data in
    let c2 =
      if ltb 0 rotate_size && bit_and (read_reg c1 reg3) 0x1 == 1
      then cpu_set_cy c1
      else cpu_clr_cy c1 in
    let c3 = op_chk_and_set_sign (cpu_clr_ov c2) (read_reg c1 reg3) in
    if ltb 32 rotate_size
    then (fault, c)
    else (ok, advance 4 (op_chk_and_set_zero c3 (read_reg c1 reg3)))

-- The loop of BINS from bit `i` on, with the rounds left.
unfoldable pub insert_bits : ℕ → ℕ → ℕ → ℕ → ℕ → ℕ
insert_bits zero i lsb reg1 word = word
insert_bits (suc left) i lsb reg1 word = insert_bits left (i + 1) lsb reg1 (
    if bit_and reg1 (2 ^ (i - lsb)) == 0
    then bit_and word (2 ^ 32 - 1 - 2 ^ i)
    else bit_or word (2 ^ i))

unfoldable pub op_exec_bins_9 : OpCodeFormatType9 → CpuRegister → Status × CpuRegister
unfolding insert_bits
op_exec_bins_9 op c =
    let chk = op.sub in
    let msb0 = op.rfu2 / 2 in
    let lsb0 = bit_or (bit_and op.rfu2 0x1 * 2 ^ 3) (bit_and op.rfu1 0x7) in
    let msb = if chk == 0b100 then msb0 + 16 else if chk == 0b101 then msb0 + 16 else msb0 in
    let lsb = if chk == 0b100 then lsb0 + 16 else lsb0 in
    let reg2_data = insert_bits (msb + 1 - lsb) lsb lsb (read_reg c op.gen) (read_reg c op.reg2) in
    let c1 = cpu_clr_ov (write_reg c op.reg2 reg2_data) in
    let c2 = op_chk_and_set_sign c1 (read_reg c1 op.reg2) in
    (ok, advance 4 (op_chk_and_set_zero c2 (read_reg c1 op.reg2)))
