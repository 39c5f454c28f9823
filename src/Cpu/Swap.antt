-- ===== src/Cpu/Swap.antt =====
-- The swaps of bytes and halfwords, src/cpu/cpu_exec/op_exec_logic.c, which test no register.
pub mod Order
use athrill_target_rh850f1x.Base.{
  ℕ, zero, suc, ◌+◌, ◌-◌, ◌*◌, ◌/◌, ◌%◌, ◌^◌, bit_and, bit_or, bit_xor, Bool, true, false, not,
  ◌&&◌, ◌||◌, if◌then◌else◌, leb, ltb, ◌==◌, ℤ, pos, negsuc, ◌+ℤ◌, ◌*ℤ◌, neg_ℤ, quot_ℤ, rem_ℤ,
  ltb_ℤ, signed32, signed16, signed8, word32, word64, Option, none, some, List, get_or, set,
}
use athrill_target_rh850f1x.Cpu.State.{
  CpuRegister, Status, ok, failed, fault, greg_num, read_reg, write_reg, advance,
  OpCodeFormatType12,
}
use athrill_target_rh850f1x.Cpu.Psw.{
  cpu_set_z, cpu_clr_z, cpu_isset_z, cpu_set_s, cpu_clr_s, cpu_isset_s, cpu_set_ov, cpu_clr_ov,
  cpu_isset_ov, cpu_set_cy, cpu_clr_cy, cpu_isset_cy, cpu_set_sat, cpu_isset_sat,
  op_chk_and_set_carry, op_chk_and_set_carry3, op_chk_and_set_borrow, op_chk_and_set_borrow3,
  op_chk_and_set_overflow, op_chk_and_set_overflow3, op_chk_and_set_zero, op_chk_and_set_sign,
}
use athrill_target_rh850f1x.Cpu.Ops.{
  add32, sub32, is_zero_ℤ, op_addi, op_andi, op_and, op_or, op_movea, op_movhi, op_mulhi, op_ori,
  op_satadd, op_xori,
}
use athrill_target_rh850f1x.Cpu.Ops.Extend.{
  op_sign_extend, op_zero_extend, op_format2_imm_sign_extend, op_format2_imm_zero_extend,
}

-- `if (test) SET else CLR`
abbrev put_z : Bool → CpuRegister → CpuRegister
put_z test c = if test then cpu_set_z c else cpu_clr_z c

abbrev put_s : Bool → CpuRegister → CpuRegister
put_s test c = if test then cpu_set_s c else cpu_clr_s c

abbrev put_cy : Bool → CpuRegister → CpuRegister
put_cy test c = if test then cpu_set_cy c else cpu_clr_cy c

unfoldable pub op_exec_hsh_12 : OpCodeFormatType12 → CpuRegister → Status × CpuRegister
op_exec_hsh_12 op c =
    let w = read_reg c op.reg2 in
    let low_zero = bit_and w 0xffff == 0 in
    let c1 = put_z low_zero (put_cy low_zero c) in
    let c2 = put_s (bit_and w 0x8000_0000 == 0x8000_0000) (cpu_clr_ov c1) in
    (ok, advance 2 (write_reg c2 op.reg3 w))

unfoldable pub op_exec_hsw_12 : OpCodeFormatType12 → CpuRegister → Status × CpuRegister
op_exec_hsw_12 op c =
    let w = read_reg c op.reg2 in
    let result_half_up = bit_and w 0xffff_0000 / 2 ^ 16 in
    let result_half_dw = bit_and w 0xffff * 2 ^ 16 in
    let result = bit_or result_half_dw result_half_up in
    let c1 = cpu_clr_ov (put_cy (result_half_dw == 0 || result_half_up == 0) c) in
    let c2 = put_s (bit_and result 0x8000_0000 == 0x8000_0000) (put_z (result == 0) c1) in
    (ok, advance 2 (write_reg c2 op.reg3 result))

unfoldable pub op_exec_bsh_12 : OpCodeFormatType12 → CpuRegister → Status × CpuRegister
op_exec_bsh_12 op c =
    let w = read_reg c op.reg2 in
    let data_0 = bit_and w 0xff in
    let data_1 = bit_and w 0xff00 / 2 ^ 8 in
    let data_2 = bit_and w 0xff_0000 / 2 ^ 16 in
    let data_3 = bit_and w 0xff00_0000 / 2 ^ 24 in
    let result =
      bit_or (bit_or (bit_or (data_2 * 2 ^ 24) (data_3 * 2 ^ 16)) (data_0 * 2 ^ 8)) data_1 in
    let c1 = put_cy (bit_and result 0xff == 0 || bit_and result 0xff00 == 0) c in
    let c2 = put_s (bit_and result 0x8000_0000 == 0x8000_0000) (cpu_clr_ov c1) in
    let c3 = put_z (bit_and result 0xffff == 0) c2 in (ok, advance 2 (write_reg c3 op.reg3 result))

unfoldable pub op_exec_bsw_12 : OpCodeFormatType12 → CpuRegister → Status × CpuRegister
op_exec_bsw_12 op c =
    let w = read_reg c op.reg2 in
    let data_0 = bit_and w 0xff in
    let data_1 = bit_and w 0xff00 / 2 ^ 8 in
    let data_2 = bit_and w 0xff_0000 / 2 ^ 16 in
    let data_3 = bit_and w 0xff00_0000 / 2 ^ 24 in
    let result =
      bit_or (bit_or (bit_or (data_0 * 2 ^ 24) (data_1 * 2 ^ 16)) (data_2 * 2 ^ 8)) data_3 in
    let zero_byte =
      bit_and result 0xff == 0
      || bit_and result 0xff00 == 0
      || bit_and result 0xff_0000 == 0
      || bit_and result 0xff00_0000 == 0 in
    let c1 = cpu_clr_ov (put_cy zero_byte c) in
    let c2 = put_s (bit_and result 0x8000_0000 == 0x8000_0000) c1 in
    let c3 = put_z (bit_and result 0xffff == 0) c2 in (ok, advance 2 (write_reg c3 op.reg3 result))
