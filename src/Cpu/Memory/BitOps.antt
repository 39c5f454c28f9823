-- ===== src/Cpu/Memory/BitOps.antt =====
-- The operations on one bit of a byte of memory, src/cpu/cpu_exec/op_exec_bit.c.
use athrill_target_rh850f1x.Base.{
  ℕ, ◌^◌, ◌-◌, bit_and, bit_or, if◌then◌else◌, leb, ◌==◌, Bool, word32,
}
use athrill_target_rh850f1x.Cpu.State.{CpuRegister, ok, failed, greg_num, read_reg, advance}
use athrill_target_rh850f1x.Cpu.Psw.{cpu_set_z, cpu_clr_z}
use athrill_target_rh850f1x.Dec.Format.{OpCodeFormatType8, OpCodeFormatType9}
use athrill_target_rh850f1x.Cpu.Memory.Bus.{Bus, Result, after_get, after_put, address}

-- `(bit & (1 << bit3)) == (1 << bit3)`
abbrev pub has_bit : ℕ → ℕ → Bool
has_bit bit bit3 = bit_and bit (2 ^ bit3) == 2 ^ bit3

-- The Z flag from the bit that was there.
abbrev pub not_bit_to_z : ℕ → ℕ → CpuRegister → CpuRegister
not_bit_to_z org_bit bit3 c = if has_bit org_bit bit3 then cpu_clr_z c else cpu_set_z c

-- `bit |= (1 << bit3)` and `bit &= ~(1 << bit3)`
abbrev pub with_bit : ℕ → ℕ → ℕ
with_bit bit bit3 = bit_or bit (2 ^ bit3)

abbrev pub without_bit : ℕ → ℕ → ℕ
without_bit bit bit3 = bit_and bit (2 ^ 32 - 1 - 2 ^ bit3)

unfoldable pub op_exec_tst1_8 :
    {M : Type 0} → Bus M → OpCodeFormatType8 → CpuRegister → M → Result M
unfolding after_get after_put
op_exec_tst1_8 b d c m =
    if leb greg_num d.reg1
    then (failed, c, m)
    else (let addr = address (read_reg c d.reg1) (word32 d.disp) in
        after_get c (b.get_data8 m addr)
          (λ m bit. let bit3 = d.bit in (ok, advance 4 (not_bit_to_z bit bit3 c), m)))

unfoldable pub op_exec_set1_8 :
    {M : Type 0} → Bus M → OpCodeFormatType8 → CpuRegister → M → Result M
unfolding after_get after_put
op_exec_set1_8 b d c m =
    if leb greg_num d.reg1
    then (failed, c, m)
    else (let addr = address (read_reg c d.reg1) (word32 d.disp) in
        after_get c (b.get_data8 m addr) (λ m bit.
          let bit3 = d.bit in
          after_put c (b.put_data8 m addr (with_bit bit bit3))
            (λ m. (ok, advance 4 (not_bit_to_z bit bit3 c), m))))

unfoldable pub op_exec_clr1_8 :
    {M : Type 0} → Bus M → OpCodeFormatType8 → CpuRegister → M → Result M
unfolding after_get after_put
op_exec_clr1_8 b d c m =
    if leb greg_num d.reg1
    then (failed, c, m)
    else (let addr = address (read_reg c d.reg1) (word32 d.disp) in
        after_get c (b.get_data8 m addr) (λ m bit.
          let bit3 = d.bit in
          after_put c (b.put_data8 m addr (without_bit bit bit3))
            (λ m. (ok, advance 4 (not_bit_to_z bit bit3 c), m))))

-- Z changes before the write, and stays so when the write fails.
unfoldable pub op_exec_not1_8 :
    {M : Type 0} → Bus M → OpCodeFormatType8 → CpuRegister → M → Result M
unfolding after_get after_put
op_exec_not1_8 b d c m =
    if leb greg_num d.reg1
    then (failed, c, m)
    else (let addr = address (read_reg c d.reg1) (word32 d.disp) in
        after_get c (b.get_data8 m addr) (λ m bit.
          let bit3 = d.bit in
          let c1 = not_bit_to_z bit bit3 c in
          let bit1 = if has_bit bit bit3 then without_bit bit bit3 else with_bit bit bit3 in
          after_put c1 (b.put_data8 m addr bit1) (λ m. (ok, advance 4 c1, m))))

unfoldable pub op_exec_tst1_9 :
    {M : Type 0} → Bus M → OpCodeFormatType9 → CpuRegister → M → Result M
unfolding after_get after_put
op_exec_tst1_9 b d c m =
    if leb greg_num d.gen
    then (failed, c, m)
    else (if leb greg_num d.reg2
        then (failed, c, m)
        else (let addr = read_reg c d.gen in
            after_get c (b.get_data8 m addr) (λ m bit.
              let bit3 = bit_and (read_reg c d.reg2) 0x7 in
              (ok, advance 4 (not_bit_to_z bit bit3 c), m))))

unfoldable pub op_exec_set1_9 :
    {M : Type 0} → Bus M → OpCodeFormatType9 → CpuRegister → M → Result M
unfolding after_get after_put
op_exec_set1_9 b d c m =
    if leb greg_num d.gen
    then (failed, c, m)
    else (if leb greg_num d.reg2
        then (failed, c, m)
        else (let addr = read_reg c d.gen in
            after_get c (b.get_data8 m addr) (λ m bit.
              let bit3 = bit_and (read_reg c d.reg2) 0x7 in
              after_put c (b.put_data8 m addr (with_bit bit bit3))
                (λ m. (ok, advance 4 (not_bit_to_z bit bit3 c), m)))))

unfoldable pub op_exec_clr1_9 :
    {M : Type 0} → Bus M → OpCodeFormatType9 → CpuRegister → M → Result M
unfolding after_get after_put
op_exec_clr1_9 b d c m =
    if leb greg_num d.gen
    then (failed, c, m)
    else (if leb greg_num d.reg2
        then (failed, c, m)
        else (let addr = read_reg c d.gen in
            after_get c (b.get_data8 m addr) (λ m bit.
              let bit3 = bit_and (read_reg c d.reg2) 0x7 in
              after_put c (b.put_data8 m addr (without_bit bit bit3))
                (λ m. (ok, advance 4 (not_bit_to_z bit bit3 c), m)))))

-- Z changes before the write, and stays so when the write fails.
unfoldable pub op_exec_not1_9 :
    {M : Type 0} → Bus M → OpCodeFormatType9 → CpuRegister → M → Result M
unfolding after_get after_put
op_exec_not1_9 b d c m =
    if leb greg_num d.gen
    then (failed, c, m)
    else (if leb greg_num d.reg2
        then (failed, c, m)
        else (let addr = read_reg c d.gen in
            after_get c (b.get_data8 m addr) (λ m bit.
              let bit3 = bit_and (read_reg c d.reg2) 0x7 in
              let c1 = not_bit_to_z bit bit3 c in
              let bit1 = if has_bit bit bit3 then without_bit bit bit3 else with_bit bit bit3 in
              after_put c1 (b.put_data8 m addr bit1) (λ m. (ok, advance 4 c1, m)))))
