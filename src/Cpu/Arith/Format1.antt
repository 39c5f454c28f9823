-- ===== src/Cpu/Arith/Format1.antt =====
-- The two-register operations of src/cpu/cpu_exec/op_exec_arithm.c.
pub mod Effects
use athrill_target_rh850f1x.Base.{
  ◌&&◌, ℕ, ◌+◌, ◌-◌, ◌%◌, ◌^◌, if◌then◌else◌, leb, ◌==◌, ℤ, pos, ◌*ℤ◌, neg_ℤ, quot_ℤ, signed32,
  signed16, word32,
}
use athrill_target_rh850f1x.Cpu.State.{
  CpuRegister, Status, ok, failed, fault, greg_num, read_reg, write_reg, advance, OpCodeFormatType1,
}
use athrill_target_rh850f1x.Cpu.Psw.{
  cpu_set_ov, cpu_clr_ov, op_chk_and_set_carry, op_chk_and_set_borrow, op_chk_and_set_overflow,
  op_chk_and_set_zero, op_chk_and_set_sign,
}
use athrill_target_rh850f1x.Cpu.Ops.{add32, sub32, is_zero_ℤ}

-- The four checks after `result = a - b`.
unfoldable pub set_sub_flags : CpuRegister → ℕ → ℕ → ℕ → CpuRegister
set_sub_flags c a b result =
    let c1 = op_chk_and_set_borrow c a b in
    let c2 = op_chk_and_set_overflow c1 (signed32 a) (neg_ℤ (signed32 b)) in
    op_chk_and_set_sign (op_chk_and_set_zero c2 result) result

-- The four checks after `result = a + b`.
unfoldable pub set_add_flags : CpuRegister → ℕ → ℕ → ℕ → CpuRegister
set_add_flags c a b result =
    let c1 = op_chk_and_set_carry c a b in
    let c2 = op_chk_and_set_overflow c1 (signed32 a) (signed32 b) in
    op_chk_and_set_sign (op_chk_and_set_zero c2 result) result

unfoldable pub op_exec_sub : OpCodeFormatType1 → CpuRegister → Status × CpuRegister
op_exec_sub op c =
    if leb greg_num op.reg1
    then (failed, c)
    else if leb greg_num op.reg2
    then (failed, c)
    else (let reg2_data = read_reg c op.reg2 in
        let reg1_data = read_reg c op.reg1 in
        let result = sub32 reg2_data reg1_data in
        let c1 = write_reg c op.reg2 result in
        (ok, advance 2 (set_sub_flags c1 reg2_data reg1_data result)))

unfoldable pub op_exec_subr : OpCodeFormatType1 → CpuRegister → Status × CpuRegister
op_exec_subr op c =
    if leb greg_num op.reg1
    then (failed, c)
    else if leb greg_num op.reg2
    then (failed, c)
    else (let reg2_data = read_reg c op.reg2 in
        let reg1_data = read_reg c op.reg1 in
        let result = sub32 reg1_data reg2_data in
        let c1 = write_reg c op.reg2 result in
        (ok, advance 2 (set_sub_flags c1 reg1_data reg2_data result)))

unfoldable pub op_exec_cmp_1 : OpCodeFormatType1 → CpuRegister → Status × CpuRegister
op_exec_cmp_1 op c =
    if leb greg_num op.reg1
    then (failed, c)
    else if leb greg_num op.reg2
    then (failed, c)
    else (let reg2_data = read_reg c op.reg2 in
        let reg1_data = read_reg c op.reg1 in
        let result = sub32 reg2_data reg1_data in
        (ok, advance 2 (set_sub_flags c reg2_data reg1_data result)))

unfoldable pub op_exec_add_1 : OpCodeFormatType1 → CpuRegister → Status × CpuRegister
op_exec_add_1 op c =
    if leb greg_num op.reg1
    then (failed, c)
    else if leb greg_num op.reg2
    then (failed, c)
    else (let reg2_data = read_reg c op.reg2 in
        let reg1_data = read_reg c op.reg1 in
        let result = add32 reg2_data reg1_data in
        let c1 = write_reg c op.reg2 result in
        (ok, advance 2 (set_add_flags c1 reg2_data reg1_data result)))

unfoldable pub op_exec_mov_1 : OpCodeFormatType1 → CpuRegister → Status × CpuRegister
op_exec_mov_1 op c =
    if leb greg_num op.reg1
    then (failed, c)
    else if leb greg_num op.reg2
    then (failed, c)
    else (ok, advance 2 (write_reg c op.reg2 (read_reg c op.reg1)))

unfoldable pub op_exec_mulh_1 : OpCodeFormatType1 → CpuRegister → Status × CpuRegister
op_exec_mulh_1 op c =
    if leb greg_num op.reg1
    then (failed, c)
    else if leb greg_num op.reg2
    then (failed, c)
    else (let tmp1 = signed16 (read_reg c op.reg1) in
        let tmp2 = signed16 (read_reg c op.reg2) in
        (ok, advance 2 (write_reg c op.reg2 (word32 (tmp1 *ℤ tmp2)))))

-- Z and S come from r[reg2], then the pc goes on: the end of the division operations.
unfoldable pub finish_div : ℕ → ℕ → CpuRegister → Status × CpuRegister
finish_div size reg2 c =
    let c1 = op_chk_and_set_zero c (read_reg c reg2) in
    (ok, advance size (op_chk_and_set_sign c1 (read_reg c1 reg2)))

-- The test is on the whole register, the division on its lower half: where that is 0 the division
-- of C faults.
unfoldable pub op_exec_divh_1 : OpCodeFormatType1 → CpuRegister → Status × CpuRegister
unfolding finish_div
op_exec_divh_1 op c =
    let reg1_data = read_reg c op.reg1 in
    let reg2_data = read_reg c op.reg2 in
    if leb greg_num op.reg1
    then (failed, c)
    else if leb greg_num op.reg2
    then (failed, c)
    else if reg1_data == 0
    then finish_div 2 op.reg2 (cpu_set_ov c)
    else if is_zero_ℤ (signed16 reg1_data)
    then (fault, cpu_clr_ov c)
    else if reg1_data % 2 ^ 16 == 0xffff && reg2_data == 0x8000_0000
    then (fault, cpu_clr_ov c)
    else finish_div 2 op.reg2 (
        write_reg (cpu_clr_ov c) op.reg2
          (word32 (quot_ℤ (signed32 reg2_data) (signed16 reg1_data))))
