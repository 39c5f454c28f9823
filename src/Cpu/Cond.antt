-- ===== src/Cpu/Cond.antt =====
-- Conditions and conditional branches: op_exec_cond and op_exec_bcond of
-- src/cpu/cpu_exec/op_exec_branch.c, and setf_chk_cond of src/cpu/cpu_exec/op_exec_arithm.c.
use athrill_target_rh850f1x.Base.{
  ℕ, ◌*◌, ◌%◌, ◌^◌, Bool, true, false, not, ◌||◌, if◌then◌else◌, ◌==◌,
}
use athrill_target_rh850f1x.Cpu.State.{CpuRegister, Status, ok, OpCodeFormatType3}
use athrill_target_rh850f1x.Cpu.Psw.{
  cpu_isset_z, cpu_isset_s, cpu_isset_ov, cpu_isset_cy, cpu_isset_sat,
}
use athrill_target_rh850f1x.Cpu.Ops.{add32}
use athrill_target_rh850f1x.Cpu.Ops.Extend.{op_sign_extend}

-- `^` of two flags
abbrev pub xor_flag : Bool → Bool → Bool
xor_flag true b = not b
xor_flag false b = b

unfoldable pub op_exec_cond : CpuRegister → ℕ → Bool
op_exec_cond c cond =
    let flg_s = cpu_isset_s c in
    let flg_ov = cpu_isset_ov c in
    let flg_z = cpu_isset_z c in
    let flg_cy = cpu_isset_cy c in
    let flg_sat = cpu_isset_sat c in
    if cond == 0b1110
    then not (xor_flag flg_s flg_ov)
    else if cond == 0b1111
    then not (xor_flag flg_s flg_ov || flg_z)
    else if cond == 0b0111
    then xor_flag flg_s flg_ov || flg_z
    else if cond == 0b0110
    then xor_flag flg_s flg_ov
    else if cond == 0b1011
    then not (flg_cy || flg_z)
    else if cond == 0b0001
    then flg_cy
    else if cond == 0b0011
    then flg_cy || flg_z
    else if cond == 0b1001
    then not flg_cy
    else if cond == 0b0010
    then flg_z
    else if cond == 0b1010
    then not flg_z
    else if cond == 0b0100
    then flg_s
    else if cond == 0b1000
    then not flg_ov
    else if cond == 0b1100
    then not flg_s
    else if cond == 0b0101
    then true
    else if cond == 0b1101
    then flg_sat
    else if cond == 0b0000
    then flg_ov
    else false

unfoldable pub setf_chk_cond : CpuRegister → ℕ → Bool
setf_chk_cond c cond =
    let flg_s = cpu_isset_s c in
    let flg_ov = cpu_isset_ov c in
    let flg_z = cpu_isset_z c in
    let flg_cy = cpu_isset_cy c in
    let flg_sat = cpu_isset_sat c in
    if cond == 0b0000
    then flg_ov
    else if cond == 0b0001
    then flg_cy
    else if cond == 0b0010
    then flg_z
    else if cond == 0b0011
    then flg_cy || flg_z
    else if cond == 0b0100
    then flg_s
    else if cond == 0b0101
    then true
    else if cond == 0b0110
    then xor_flag flg_s flg_ov
    else if cond == 0b0111
    then xor_flag flg_s flg_ov || flg_z
    else if cond == 0b1000
    then not flg_ov
    else if cond == 0b1001
    then not flg_cy
    else if cond == 0b1010
    then not flg_z
    else if cond == 0b1011
    then not (flg_cy || flg_z)
    else if cond == 0b1100
    then not flg_s
    else if cond == 0b1101
    then not flg_sat
    else if cond == 0b1110
    then not (xor_flag flg_s flg_ov)
    else if cond == 0b1111
    then not (xor_flag flg_s flg_ov || flg_z)
    else false

-- The displacement and the size are added to the pc as words.
unfoldable pub op_exec_bcond : ℕ → ℕ → ℕ → CpuRegister → CpuRegister
op_exec_bcond cond disp code_size c =
    if op_exec_cond c cond
    then record c { pc = add32 c.pc disp }
    else record c { pc = add32 c.pc code_size }

unfoldable pub op_exec_bcond_3 : OpCodeFormatType3 → CpuRegister → Status × CpuRegister
op_exec_bcond_3 op c =
    let disp_u = op.disp * 2 % 2 ^ 32 in (ok, op_exec_bcond op.cond (op_sign_extend 8 disp_u) 2 c)
