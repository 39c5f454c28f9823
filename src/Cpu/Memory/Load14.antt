-- ===== src/Cpu/Memory/Load14.antt =====
-- The loads of 48 bits, src/cpu/cpu_exec/op_exec_load.c.
use athrill_target_rh850f1x.Base.{◌*◌, ◌^◌, bit_or, if◌then◌else◌, leb}
use athrill_target_rh850f1x.Cpu.State.{CpuRegister, failed, greg_num, read_reg}
use athrill_target_rh850f1x.Cpu.Ops.Extend.{op_sign_extend}
use athrill_target_rh850f1x.Dec.Format.{OpCodeFormatType14}
use athrill_target_rh850f1x.Cpu.Memory.Bus.{Bus, Result, after_get, loaded, sext8, sext16, address}

unfoldable pub op_exec_ld_b_14 :
    {M : Type 0} → Bus M → OpCodeFormatType14 → CpuRegister → M → Result M
unfolding after_get
op_exec_ld_b_14 b d c m =
    let reg1 = d.reg1 in
    let reg3 = d.reg3 in
    if leb greg_num reg1
    then (failed, c, m)
    else (if leb greg_num reg3
        then (failed, c, m)
        else (let disp = op_sign_extend 22 (bit_or (d.disp_high * 2 ^ 7) d.disp_low) in
            let addr = address (read_reg c reg1) disp in
            after_get c (b.get_data8 m addr) (λ m v. loaded c reg3 (sext8 v) 6 m)))

unfoldable pub op_exec_ld_bu_14 :
    {M : Type 0} → Bus M → OpCodeFormatType14 → CpuRegister → M → Result M
unfolding after_get
op_exec_ld_bu_14 b d c m =
    let reg1 = d.reg1 in
    let reg3 = d.reg3 in
    if leb greg_num reg1
    then (failed, c, m)
    else (if leb greg_num reg3
        then (failed, c, m)
        else (let disp = op_sign_extend 22 (bit_or (d.disp_high * 2 ^ 7) d.disp_low) in
            let addr = address (read_reg c reg1) disp in
            after_get c (b.get_data8 m addr) (λ m v. loaded c reg3 (v) 6 m)))

unfoldable pub op_exec_ld_h_14 :
    {M : Type 0} → Bus M → OpCodeFormatType14 → CpuRegister → M → Result M
unfolding after_get
op_exec_ld_h_14 b d c m =
    let reg1 = d.reg1 in
    let reg3 = d.reg3 in
    if leb greg_num reg1
    then (failed, c, m)
    else (if leb greg_num reg3
        then (failed, c, m)
        else (let disp = op_sign_extend 22 (bit_or (d.disp_high * 2 ^ 7) d.disp_low) in
            let addr = address (read_reg c reg1) disp in
            after_get c (b.get_data16 m addr) (λ m v. loaded c reg3 (sext16 v) 6 m)))

unfoldable pub op_exec_ld_w_14 :
    {M : Type 0} → Bus M → OpCodeFormatType14 → CpuRegister → M → Result M
unfolding after_get
op_exec_ld_w_14 b d c m =
    let reg1 = d.reg1 in
    let reg3 = d.reg3 in
    if leb greg_num reg1
    then (failed, c, m)
    else (if leb greg_num reg3
        then (failed, c, m)
        else (let disp = op_sign_extend 22 (bit_or (d.disp_high * 2 ^ 7) d.disp_low) in
            let addr = address (read_reg c reg1) disp in
            after_get c (b.get_data32 m addr) (λ m v. loaded c reg3 (v) 6 m)))

unfoldable pub op_exec_ld_hu_14 :
    {M : Type 0} → Bus M → OpCodeFormatType14 → CpuRegister → M → Result M
unfolding after_get
op_exec_ld_hu_14 b d c m =
    let reg1 = d.reg1 in
    let reg3 = d.reg3 in
    if leb greg_num reg1
    then (failed, c, m)
    else (if leb greg_num reg3
        then (failed, c, m)
        else (let disp = op_sign_extend 22 (bit_or (d.disp_high * 2 ^ 7) d.disp_low) in
            let addr = address (read_reg c reg1) disp in
            after_get c (b.get_data16 m addr) (λ m v. loaded c reg3 (v) 6 m)))
