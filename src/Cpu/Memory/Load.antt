-- ===== src/Cpu/Memory/Load.antt =====
-- The loads of 16 and 32 bits, src/cpu/cpu_exec/op_exec_load.c. `disp << 1` stays below 2 ^ 32: the
-- displacement of a decoded instruction has at most 15 bits.
use athrill_target_rh850f1x.Base.{◌*◌, ◌%◌, ◌^◌, bit_and, bit_or, if◌then◌else◌, leb, ◌==◌}
use athrill_target_rh850f1x.Cpu.State.{CpuRegister, failed, greg_num, read_reg}
use athrill_target_rh850f1x.Cpu.Ops.Extend.{op_sign_extend, op_zero_extend}
use athrill_target_rh850f1x.Dec.Format.{OpCodeFormatType4_1, OpCodeFormatType4_2, OpCodeFormatType7}
use athrill_target_rh850f1x.Cpu.Memory.Bus.{
  Bus, Result, cpu_reg_ep, after_get, loaded, sext8, sext16, address,
}

unfoldable pub op_exec_sldb :
    {M : Type 0} → Bus M → OpCodeFormatType4_1 → CpuRegister → M → Result M
unfolding after_get
op_exec_sldb b d c m =
    let reg1 = cpu_reg_ep in
    let reg2 = d.reg2 in
    if leb greg_num reg1
    then (failed, c, m)
    else (if leb greg_num reg2
        then (failed, c, m)
        else (let disp = op_zero_extend 7 (bit_or (d.disp * 2) d.gen) in
            let addr = address (read_reg c reg1) disp in
            after_get c (b.get_data8 m addr) (λ m v. loaded c reg2 (sext8 v) 2 m)))

unfoldable pub op_exec_sldbu :
    {M : Type 0} → Bus M → OpCodeFormatType4_2 → CpuRegister → M → Result M
unfolding after_get
op_exec_sldbu b d c m =
    let reg1 = cpu_reg_ep in
    let reg2 = d.reg2 in
    if leb greg_num reg1
    then (failed, c, m)
    else (if leb greg_num reg2
        then (failed, c, m)
        else (let disp = op_zero_extend 4 d.disp in
            let addr = address (read_reg c reg1) disp in
            after_get c (b.get_data8 m addr) (λ m v. loaded c reg2 (v) 2 m)))

unfoldable pub op_exec_sldhu :
    {M : Type 0} → Bus M → OpCodeFormatType4_2 → CpuRegister → M → Result M
unfolding after_get
op_exec_sldhu b d c m =
    let reg1 = cpu_reg_ep in
    let reg2 = d.reg2 in
    if leb greg_num reg1
    then (failed, c, m)
    else (if leb greg_num reg2
        then (failed, c, m)
        else (let disp = op_zero_extend 5 (d.disp * 2) in
            let addr = address (read_reg c reg1) disp in
            after_get c (b.get_data16 m addr) (λ m v. loaded c reg2 (v) 2 m)))

unfoldable pub op_exec_sldh :
    {M : Type 0} → Bus M → OpCodeFormatType4_1 → CpuRegister → M → Result M
unfolding after_get
op_exec_sldh b d c m =
    let reg1 = cpu_reg_ep in
    let reg2 = d.reg2 in
    if leb greg_num reg1
    then (failed, c, m)
    else (if leb greg_num reg2
        then (failed, c, m)
        else (let disp = op_zero_extend 7 (bit_or (d.disp * 2) d.gen) * 2 % 2 ^ 32 in
            let addr = address (read_reg c reg1) disp in
            after_get c (b.get_data16 m addr) (λ m v. loaded c reg2 (sext16 v) 2 m)))

unfoldable pub op_exec_sldw :
    {M : Type 0} → Bus M → OpCodeFormatType4_1 → CpuRegister → M → Result M
unfolding after_get
op_exec_sldw b d c m =
    let reg1 = cpu_reg_ep in
    let reg2 = d.reg2 in
    if leb greg_num reg1
    then (failed, c, m)
    else (if leb greg_num reg2
        then (failed, c, m)
        else (let disp = op_zero_extend 6 d.disp * 2 ^ 2 % 2 ^ 32 in
            let addr = address (read_reg c reg1) disp in
            after_get c (b.get_data32 m addr) (λ m v. loaded c reg2 (v) 2 m)))

unfoldable pub op_exec_ldb : {M : Type 0} → Bus M → OpCodeFormatType7 → CpuRegister → M → Result M
unfolding after_get
op_exec_ldb b d c m =
    let reg1 = d.reg1 in
    let reg2 = d.reg2 in
    if leb greg_num reg1
    then (failed, c, m)
    else (if leb greg_num reg2
        then (failed, c, m)
        else (let disp = op_sign_extend 15 (bit_or (d.disp * 2) d.gen) in
            let addr = address (read_reg c reg1) disp in
            after_get c (b.get_data8 m addr) (λ m v. loaded c reg2 (sext8 v) 4 m)))

unfoldable pub op_exec_ldbu : {M : Type 0} → Bus M → OpCodeFormatType7 → CpuRegister → M → Result M
unfolding after_get
op_exec_ldbu b d c m =
    let reg1 = d.reg1 in
    let reg2 = d.reg2 in
    if leb greg_num reg1
    then (failed, c, m)
    else (if leb greg_num reg2
        then (failed, c, m)
        else (let disp = op_sign_extend 15 (bit_or (d.disp * 2) (bit_and d.opcode 0x1)) in
            let addr = address (read_reg c reg1) disp in
            after_get c (b.get_data8 m addr) (λ m v. loaded c reg2 (v) 4 m)))

unfoldable pub op_exec_ldhu : {M : Type 0} → Bus M → OpCodeFormatType7 → CpuRegister → M → Result M
unfolding after_get
op_exec_ldhu b d c m =
    let reg1 = d.reg1 in
    let reg2 = d.reg2 in
    if leb greg_num reg1
    then (failed, c, m)
    else (if leb greg_num reg2
        then (failed, c, m)
        else (let disp = op_sign_extend 15 (d.disp * 2) in
            let addr = address (read_reg c reg1) disp in
            after_get c (b.get_data16 m addr) (λ m v. loaded c reg2 (v) 4 m)))

-- LD.H and LD.W: `gen` tells them apart.
unfoldable pub op_exec_ldhw : {M : Type 0} → Bus M → OpCodeFormatType7 → CpuRegister → M → Result M
unfolding after_get
op_exec_ldhw b d c m =
    let reg1 = d.reg1 in
    let reg2 = d.reg2 in
    if leb greg_num reg1
    then (failed, c, m)
    else (if leb greg_num reg2
        then (failed, c, m)
        else (let disp = op_sign_extend 15 (d.disp * 2) in
            let addr = address (read_reg c reg1) disp in
            if d.gen == 0
            then after_get c (b.get_data16 m addr) (λ m v. loaded c reg2 (sext16 v) 4 m)
            else after_get c (b.get_data32 m addr) (λ m v. loaded c reg2 v 4 m)))
