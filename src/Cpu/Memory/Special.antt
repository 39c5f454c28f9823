-- ===== src/Cpu/Memory/Special.antt =====
-- SWITCH and CAXI, src/cpu/cpu_exec/op_exec_spec.c, over the interface of the bus.
pub mod Exchange
use athrill_target_rh850f1x.Base.{
  ℕ, ◌+◌, ◌*◌, ◌%◌, ◌^◌, if◌then◌else◌, leb, ◌==◌, bit_and, signed16, neg_ℤ, pos,
}
use athrill_target_rh850f1x.Cpu.State.{
  CpuRegister, ok, failed, greg_num, read_reg, write_reg, advance, OpCodeFormatType1,
  OpCodeFormatType11,
}
use athrill_target_rh850f1x.Cpu.Ops.{add32, sub32}
use athrill_target_rh850f1x.Cpu.Psw.{
  op_chk_and_set_borrow, op_chk_and_set_overflow, op_chk_and_set_zero, op_chk_and_set_sign,
}
use athrill_target_rh850f1x.Cpu.Memory.Bus.{Bus, Result, after_get, after_put, sext16}

unfoldable pub op_exec_switch :
    {M : Type 0} → Bus M → OpCodeFormatType1 → CpuRegister → M → Result M
unfolding after_get
op_exec_switch b op c m =
    if leb greg_num op.reg1
    then (failed, c, m)
    else (let addr = add32 (add32 c.pc 2) (read_reg c op.reg1 * 2 % 2 ^ 32) in
        after_get c (b.get_data16 m addr) (λ m data16.
          let tmp_pc = sext16 data16 * 2 % 2 ^ 32 in
          (ok, record c { pc = add32 (add32 c.pc 2) tmp_pc }, m)))

-- `token` and `result` are sint16 values: the flags get them extended by their sign.
unfoldable pub op_exec_caxi : {M : Type 0} → Bus M → OpCodeFormatType11 → CpuRegister → M → Result M
unfolding after_get after_put
op_exec_caxi b op c m =
    let reg1_addr = bit_and (read_reg c op.reg1) 0xffff_fffc in
    let reg2_data = read_reg c op.reg2 in
    let reg3_data = read_reg c op.reg3 in
    after_get c (b.get_data16 m reg1_addr) (λ m token.
      let result = sext16 (sub32 reg2_data (sext16 token)) in
      let put_data = if result == 0 then reg3_data % 2 ^ 16 else token % 2 ^ 16 in
      after_put c (b.put_data16 m reg1_addr put_data) (λ m.
        let c1 = write_reg c op.reg3 (token % 2 ^ 16) in
        let c2 = op_chk_and_set_borrow c1 reg2_data (sext16 token) in
        let c3 = op_chk_and_set_overflow c2 (pos reg2_data) (neg_ℤ (signed16 token)) in
        let c4 = op_chk_and_set_sign (op_chk_and_set_zero c3 result) result in
        (ok, advance 4 c4, m)))
