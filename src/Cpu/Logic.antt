-- ===== src/Cpu/Logic.antt =====
-- The logical operations, src/cpu/cpu_exec/op_exec_logic.c.
pub mod Effects
mod Tests
use athrill_target_rh850f1x.Base.{
  ◌-◌, ◌%◌, ◌^◌, bit_xor, if◌then◌else◌, leb, signed16, signed8, word32,
}
use athrill_target_rh850f1x.Cpu.State.{
  CpuRegister, Status, ok, failed, greg_num, read_reg, write_reg, advance, OpCodeFormatType1,
  OpCodeFormatType6,
}
use athrill_target_rh850f1x.Cpu.Psw.{cpu_clr_ov, op_chk_and_set_zero, op_chk_and_set_sign}
use athrill_target_rh850f1x.Cpu.Ops.{op_andi, op_and, op_or, op_ori, op_xori}
use athrill_target_rh850f1x.Cpu.Ops.Extend.{op_zero_extend}

unfoldable pub op_exec_or : OpCodeFormatType1 → CpuRegister → Status × CpuRegister
op_exec_or op c =
    if leb greg_num op.reg1
    then (failed, c)
    else if leb greg_num op.reg2
    then (failed, c)
    else (let (result, c1) = op_or c (read_reg c op.reg2) (read_reg c op.reg1) in
        (ok, advance 2 (write_reg c1 op.reg2 result)))

unfoldable pub op_exec_zxb : OpCodeFormatType1 → CpuRegister → Status × CpuRegister
op_exec_zxb op c =
    if leb greg_num op.reg1
    then (failed, c)
    else (ok, advance 2 (write_reg c op.reg1 (read_reg c op.reg1 % 2 ^ 8)))

unfoldable pub op_exec_zxh : OpCodeFormatType1 → CpuRegister → Status × CpuRegister
op_exec_zxh op c =
    if leb greg_num op.reg1
    then (failed, c)
    else (ok, advance 2 (write_reg c op.reg1 (read_reg c op.reg1 % 2 ^ 16)))

unfoldable pub op_exec_tst : OpCodeFormatType1 → CpuRegister → Status × CpuRegister
op_exec_tst op c =
    if leb greg_num op.reg1
    then (failed, c)
    else if leb greg_num op.reg2
    then (failed, c)
    else (let (result, c1) = op_and c (read_reg c op.reg2) (read_reg c op.reg1) in
        (ok, advance 2 c1))

unfoldable pub op_exec_and : OpCodeFormatType1 → CpuRegister → Status × CpuRegister
op_exec_and op c =
    if leb greg_num op.reg1
    then (failed, c)
    else if leb greg_num op.reg2
    then (failed, c)
    else (let (result, c1) = op_and c (read_reg c op.reg2) (read_reg c op.reg1) in
        (ok, advance 2 (write_reg c1 op.reg2 result)))

unfoldable pub op_exec_not : OpCodeFormatType1 → CpuRegister → Status × CpuRegister
op_exec_not op c =
    if leb greg_num op.reg1
    then (failed, c)
    else if leb greg_num op.reg2
    then (failed, c)
    else (let result = 2 ^ 32 - 1 - read_reg c op.reg1 in
        let c1 = write_reg c op.reg2 result in
        let c2 = op_chk_and_set_zero c1 (read_reg c1 op.reg2) in
        let c3 = op_chk_and_set_sign c2 (read_reg c2 op.reg2) in (ok, advance 2 (cpu_clr_ov c3)))

unfoldable pub op_exec_xor : OpCodeFormatType1 → CpuRegister → Status × CpuRegister
op_exec_xor op c =
    if leb greg_num op.reg1
    then (failed, c)
    else if leb greg_num op.reg2
    then (failed, c)
    else (let result = bit_xor (read_reg c op.reg2) (read_reg c op.reg1) in
        let c1 = write_reg c op.reg2 result in
        let c2 = op_chk_and_set_zero c1 (read_reg c1 op.reg2) in
        let c3 = op_chk_and_set_sign c2 (read_reg c2 op.reg2) in (ok, advance 2 (cpu_clr_ov c3)))

unfoldable pub op_exec_sxh : OpCodeFormatType1 → CpuRegister → Status × CpuRegister
op_exec_sxh op c =
    if leb greg_num op.reg1
    then (failed, c)
    else (ok, advance 2 (write_reg c op.reg1 (word32 (signed16 (read_reg c op.reg1)))))

unfoldable pub op_exec_sxb : OpCodeFormatType1 → CpuRegister → Status × CpuRegister
op_exec_sxb op c =
    if leb greg_num op.reg1
    then (failed, c)
    else (ok, advance 2 (write_reg c op.reg1 (word32 (signed8 (read_reg c op.reg1)))))

unfoldable pub op_exec_andi : OpCodeFormatType6 → CpuRegister → Status × CpuRegister
op_exec_andi op c =
    let imm_data = op_zero_extend 16 op.imm in
    if leb greg_num op.reg1
    then (failed, c)
    else if leb greg_num op.reg2
    then (failed, c)
    else (let (result, c1) = op_andi c imm_data (read_reg c op.reg1) in
        (ok, advance 4 (write_reg c1 op.reg2 result)))

unfoldable pub op_exec_ori : OpCodeFormatType6 → CpuRegister → Status × CpuRegister
op_exec_ori op c =
    let imm_data = op_zero_extend 16 op.imm in
    if leb greg_num op.reg1
    then (failed, c)
    else if leb greg_num op.reg2
    then (failed, c)
    else (let (result, c1) = op_ori c imm_data (read_reg c op.reg1) in
        (ok, advance 4 (write_reg c1 op.reg2 result)))

unfoldable pub op_exec_xori : OpCodeFormatType6 → CpuRegister → Status × CpuRegister
op_exec_xori op c =
    let imm_data = op_zero_extend 16 op.imm in
    if leb greg_num op.reg1
    then (failed, c)
    else if leb greg_num op.reg2
    then (failed, c)
    else (let (result, c1) = op_xori c imm_data (read_reg c op.reg1) in
        (ok, advance 4 (write_reg c1 op.reg2 result)))
