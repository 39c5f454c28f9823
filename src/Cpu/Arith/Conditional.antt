-- ===== src/Cpu/Arith/Conditional.antt =====
-- The operations that read a condition, src/cpu/cpu_exec/op_exec_arithm.c: SETF, SASF, CMOV, ADF
pub mod Effects
-- and SBF.
use athrill_target_rh850f1x.Base.{
  ℕ, ◌*◌, ◌%◌, ◌^◌, bit_and, bit_or, if◌then◌else◌, leb, pos, neg_ℤ, signed32,
}
use athrill_target_rh850f1x.Cpu.State.{
  CpuRegister, Status, ok, failed, greg_num, read_reg, write_reg, advance, OpCodeFormatType9,
  OpCodeFormatType11, OpCodeFormatType12,
}
use athrill_target_rh850f1x.Cpu.Psw.{
  op_chk_and_set_carry3, op_chk_and_set_borrow3, op_chk_and_set_overflow3, op_chk_and_set_zero,
  op_chk_and_set_sign,
}
use athrill_target_rh850f1x.Cpu.Ops.{add32, sub32}
use athrill_target_rh850f1x.Cpu.Ops.Extend.{op_sign_extend}
use athrill_target_rh850f1x.Cpu.Cond.{op_exec_cond, setf_chk_cond}

unfoldable pub op_exec_setf : OpCodeFormatType9 → CpuRegister → Status × CpuRegister
op_exec_setf op c =
    if leb greg_num op.reg2
    then (failed, c)
    else (let result : ℕ = if setf_chk_cond c op.gen then 1 else 0 in
        (ok, advance 4 (write_reg c op.reg2 result)))

unfoldable pub op_exec_sasf_9 : OpCodeFormatType9 → CpuRegister → Status × CpuRegister
op_exec_sasf_9 op c =
    if leb greg_num op.reg2
    then (failed, c)
    else (let shifted = read_reg c op.reg2 * 2 % 2 ^ 32 in
        let result : ℕ = if op_exec_cond c op.gen then bit_or shifted 1 else shifted in
        (ok, advance 4 (write_reg c op.reg2 result)))

-- `(rfu << 1) | sub2`
abbrev pub cond_11 : OpCodeFormatType11 → ℕ
cond_11 op = bit_or (op.rfu * 2) op.sub2

unfoldable pub op_exec_cmov_11 : OpCodeFormatType11 → CpuRegister → Status × CpuRegister
op_exec_cmov_11 op c =
    if leb greg_num op.reg1
    then (failed, c)
    else if leb greg_num op.reg2
    then (failed, c)
    else if leb greg_num op.reg3
    then (failed, c)
    else (let result =
          if setf_chk_cond c (cond_11 op) then read_reg c op.reg1 else read_reg c op.reg2 in
        (ok, advance 4 (write_reg c op.reg3 result)))

unfoldable pub op_exec_cmov_12 : OpCodeFormatType12 → CpuRegister → Status × CpuRegister
op_exec_cmov_12 op c =
    let imm_data = op_sign_extend 4 op.imml in
    let cond = bit_or (bit_and op.immh 0x07 * 2) op.sub2 in
    if leb greg_num op.reg2
    then (failed, c)
    else if leb greg_num op.reg3
    then (failed, c)
    else (let result = if setf_chk_cond c cond then imm_data else read_reg c op.reg2 in
        (ok, advance 4 (write_reg c op.reg3 result)))

unfoldable pub op_exec_adf_11 : OpCodeFormatType11 → CpuRegister → Status × CpuRegister
op_exec_adf_11 op c =
    if leb greg_num op.reg1
    then (failed, c)
    else if leb greg_num op.reg2
    then (failed, c)
    else if leb greg_num op.reg3
    then (failed, c)
    else (let reg1_data = read_reg c op.reg1 in
        let reg2_data = read_reg c op.reg2 in
        let add_data : ℕ = if op_exec_cond c (cond_11 op) then 1 else 0 in
        let result = add32 (add32 reg2_data reg1_data) add_data in
        let c1 = write_reg c op.reg3 result in
        let c2 = op_chk_and_set_carry3 c1 reg2_data reg1_data add_data in
        let c3 =
          op_chk_and_set_overflow3 c2 (signed32 reg2_data) (signed32 reg1_data) (pos add_data) in
        (ok, advance 4 (op_chk_and_set_sign (op_chk_and_set_zero c3 result) result)))

unfoldable pub op_exec_sbf_11 : OpCodeFormatType11 → CpuRegister → Status × CpuRegister
op_exec_sbf_11 op c =
    if leb greg_num op.reg1
    then (failed, c)
    else if leb greg_num op.reg2
    then (failed, c)
    else if leb greg_num op.reg3
    then (failed, c)
    else (let reg1_data = read_reg c op.reg1 in
        let reg2_data = read_reg c op.reg2 in
        let add_data : ℕ = if op_exec_cond c (cond_11 op) then 1 else 0 in
        let result = sub32 (sub32 reg2_data reg1_data) add_data in
        let c1 = write_reg c op.reg3 result in
        let c2 = op_chk_and_set_borrow3 c1 reg2_data reg1_data add_data in
        let c3 =
          op_chk_and_set_overflow3 c2 (signed32 reg2_data) (neg_ℤ (signed32 reg1_data))
            (neg_ℤ (pos add_data)) in
        (ok, advance 4 (op_chk_and_set_sign (op_chk_and_set_zero c3 result) result)))
