-- ===== src/Cpu/Memory/Store.antt =====
-- The stores, src/cpu/cpu_exec/op_exec_store.c.
use athrill_target_rh850f1x.Base.{ℕ, ◌*◌, ◌%◌, ◌^◌, bit_or, if◌then◌else◌, leb, Bool, ◌==◌, ◌&&◌}
use athrill_target_rh850f1x.Cpu.State.{CpuRegister, ok, failed, greg_num, read_reg, advance}
use athrill_target_rh850f1x.Cpu.Ops.Extend.{op_sign_extend, op_zero_extend}
use athrill_target_rh850f1x.Dec.Format.{OpCodeFormatType4_1, OpCodeFormatType7, OpCodeFormatType14}
use athrill_target_rh850f1x.Cpu.Memory.Bus.{Bus, Result, cpu_reg_ep, cpu_reg_sp, after_put, address}

-- IS_STACK_OVER. The macro compares the displacement with TRUE, which is 1, inside the call, so
-- that the callee takes the outcome 0 or 1 for the displacement.
abbrev pub is_stack_over : {M : Type 0} → Bus M → M → CpuRegister → ℕ → ℕ → Bool
is_stack_over b m c i disp = b.stack_over m (read_reg c i) (if disp == 1 then 1 else 0)

unfoldable pub op_exec_sstb :
    {M : Type 0} → Bus M → OpCodeFormatType4_1 → CpuRegister → M → Result M
unfolding after_put
op_exec_sstb b d c m =
    let reg1 = cpu_reg_ep in
    let reg2 = d.reg2 in
    if leb greg_num reg1
    then (failed, c, m)
    else (if leb greg_num reg2
        then (failed, c, m)
        else (let disp = op_zero_extend 7 (bit_or (d.disp * 2) d.gen) in
            let addr = address (read_reg c reg1) disp in
            if reg1 == cpu_reg_sp && is_stack_over b m c reg1 disp
            then (failed, c, m)
            else after_put c (b.put_data8 m addr (read_reg c reg2 % 2 ^ 8))
                (λ m. (ok, advance 2 c, m))))

unfoldable pub op_exec_ssth :
    {M : Type 0} → Bus M → OpCodeFormatType4_1 → CpuRegister → M → Result M
unfolding after_put
op_exec_ssth b d c m =
    let reg1 = cpu_reg_ep in
    let reg2 = d.reg2 in
    if leb greg_num reg1
    then (failed, c, m)
    else (if leb greg_num reg2
        then (failed, c, m)
        else (let disp = op_zero_extend 7 (bit_or (d.disp * 2) d.gen) * 2 % 2 ^ 32 in
            let addr = address (read_reg c reg1) disp in
            if reg1 == cpu_reg_sp && is_stack_over b m c reg1 disp
            then (failed, c, m)
            else after_put c (b.put_data16 m addr (read_reg c reg2 % 2 ^ 16))
                (λ m. (ok, advance 2 c, m))))

unfoldable pub op_exec_sstw :
    {M : Type 0} → Bus M → OpCodeFormatType4_1 → CpuRegister → M → Result M
unfolding after_put
op_exec_sstw b d c m =
    let reg1 = cpu_reg_ep in
    let reg2 = d.reg2 in
    if leb greg_num reg1
    then (failed, c, m)
    else (if leb greg_num reg2
        then (failed, c, m)
        else (let disp = op_zero_extend 6 d.disp * 2 ^ 2 % 2 ^ 32 in
            let addr = address (read_reg c reg1) disp in
            if reg1 == cpu_reg_sp && is_stack_over b m c reg1 disp
            then (failed, c, m)
            else after_put c (b.put_data32 m addr (read_reg c reg2)) (λ m. (ok, advance 2 c, m))))

unfoldable pub op_exec_stb : {M : Type 0} → Bus M → OpCodeFormatType7 → CpuRegister → M → Result M
unfolding after_put
op_exec_stb b d c m =
    let reg1 = d.reg1 in
    let reg2 = d.reg2 in
    if leb greg_num reg1
    then (failed, c, m)
    else (if leb greg_num reg2
        then (failed, c, m)
        else (let disp = op_sign_extend 15 (bit_or (d.disp * 2) d.gen) in
            let addr = address (read_reg c reg1) disp in
            if reg1 == cpu_reg_sp && is_stack_over b m c reg1 disp
            then (failed, c, m)
            else after_put c (b.put_data8 m addr (read_reg c reg2 % 2 ^ 8))
                (λ m. (ok, advance 4 c, m))))

-- ST.H and ST.W: `gen` tells them apart.
unfoldable pub op_exec_sthw : {M : Type 0} → Bus M → OpCodeFormatType7 → CpuRegister → M → Result M
unfolding after_put
op_exec_sthw b d c m =
    let reg1 = d.reg1 in
    let reg2 = d.reg2 in
    if leb greg_num reg1
    then (failed, c, m)
    else (if leb greg_num reg2
        then (failed, c, m)
        else (let disp = op_sign_extend 15 (d.disp * 2) in
            let addr = address (read_reg c reg1) disp in
            if reg1 == cpu_reg_sp && is_stack_over b m c reg1 disp
            then (failed, c, m)
            else (if d.gen == 0
                then after_put c (b.put_data16 m addr (read_reg c reg2 % 2 ^ 16))
                    (λ m. (ok, advance 4 c, m))
                else after_put c (b.put_data32 m addr (read_reg c reg2))
                    (λ m. (ok, advance 4 c, m)))))

unfoldable pub op_exec_st_b_14 :
    {M : Type 0} → Bus M → OpCodeFormatType14 → CpuRegister → M → Result M
unfolding after_put
op_exec_st_b_14 b d c m =
    let reg1 = d.reg1 in
    let reg3 = d.reg3 in
    if leb greg_num reg1
    then (failed, c, m)
    else (if leb greg_num reg3
        then (failed, c, m)
        else (let disp = op_sign_extend 22 (bit_or (d.disp_high * 2 ^ 7) d.disp_low) in
            let addr = address (read_reg c reg1) disp in
            if reg1 == cpu_reg_sp && is_stack_over b m c reg1 disp
            then (failed, c, m)
            else after_put c (b.put_data8 m addr (read_reg c reg3 % 2 ^ 8))
                (λ m. (ok, advance 6 c, m))))

unfoldable pub op_exec_st_h_14 :
    {M : Type 0} → Bus M → OpCodeFormatType14 → CpuRegister → M → Result M
unfolding after_put
op_exec_st_h_14 b d c m =
    let reg1 = d.reg1 in
    let reg3 = d.reg3 in
    if leb greg_num reg1
    then (failed, c, m)
    else (if leb greg_num reg3
        then (failed, c, m)
        else (let disp = op_sign_extend 22 (bit_or (d.disp_high * 2 ^ 7) d.disp_low) in
            let addr = address (read_reg c reg1) disp in
            if reg1 == cpu_reg_sp && is_stack_over b m c reg1 disp
            then (failed, c, m)
            else after_put c (b.put_data16 m addr (read_reg c reg3 % 2 ^ 16))
                (λ m. (ok, advance 6 c, m))))

unfoldable pub op_exec_st_w_14 :
    {M : Type 0} → Bus M → OpCodeFormatType14 → CpuRegister → M → Result M
unfolding after_put
op_exec_st_w_14 b d c m =
    let reg1 = d.reg1 in
    let reg3 = d.reg3 in
    if leb greg_num reg1
    then (failed, c, m)
    else (if leb greg_num reg3
        then (failed, c, m)
        else (let disp = op_sign_extend 22 (bit_or (d.disp_high * 2 ^ 7) d.disp_low) in
            let addr = address (read_reg c reg1) disp in
            if reg1 == cpu_reg_sp && is_stack_over b m c reg1 disp
            then (failed, c, m)
            else after_put c (b.put_data32 m addr (read_reg c reg3)) (λ m. (ok, advance 6 c, m))))
