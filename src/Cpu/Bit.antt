-- ===== src/Cpu/Bit.antt =====
-- The searches for a bit, src/cpu/cpu_exec/op_exec_bit.c.
pub mod Search
pub mod Effects
mod Tests
use athrill_target_rh850f1x.Base.{
  ℕ, zero, suc, ◌+◌, ◌-◌, ◌^◌, Bool, true, false, if◌then◌else◌, ◌==◌, bit_and,
}
use athrill_target_rh850f1x.Cpu.State.{
  CpuRegister, Status, ok, read_reg, write_reg, advance, OpCodeFormatType9,
}
use athrill_target_rh850f1x.Cpu.Psw.{cpu_set_cy, cpu_clr_ov, cpu_clr_s, cpu_set_z, cpu_clr_z}

-- The table of two rows: 32 times 0, and the 32 masks of one bit.
abbrev pub schlr_search_bitval : Bool → ℕ → ℕ
schlr_search_bitval false i = 0
schlr_search_bitval true i = 2 ^ i

-- The place that round `i` looks at.
abbrev pub place : Bool → ℕ → ℕ
place search_left i = if search_left then 31 - i else i

-- The loop, with `left` rounds left: isFound and count at its end.
unfoldable pub search_loop : ℕ → ℕ → ℕ → ℕ → Bool → Bool → Bool × ℕ
search_loop zero i count reg2_data search_bitval search_left = (false, count)
search_loop (suc left) i count reg2_data search_bitval search_left =
    let k = place search_left i in
    let rest = search_loop left (i + 1) (count + 1) reg2_data search_bitval search_left in
    if bit_and reg2_data (2 ^ k) == schlr_search_bitval search_bitval k then (true, count) else rest

-- Both branches of the test of `count` set CY.
unfoldable pub op_exec_schlr_9 :
    Bool → Bool → OpCodeFormatType9 → CpuRegister → Status × CpuRegister
op_exec_schlr_9 search_bitval search_left op c =
    let (found, count) = search_loop 32 0 0 (read_reg c op.reg2) search_bitval search_left in
    let c1 = if count == 31 then cpu_set_cy c else cpu_set_cy c in
    let c2 = cpu_clr_s (cpu_clr_ov c1) in
    let c3 = if found then cpu_clr_z c2 else cpu_set_z c2 in
    let result = if found then count + 1 else 0 in (ok, advance 4 (write_reg c3 op.rfu2 result))

unfoldable pub op_exec_sch0l_9 : OpCodeFormatType9 → CpuRegister → Status × CpuRegister
op_exec_sch0l_9 op c = op_exec_schlr_9 false true op c

unfoldable pub op_exec_sch1l_9 : OpCodeFormatType9 → CpuRegister → Status × CpuRegister
op_exec_sch1l_9 op c = op_exec_schlr_9 true true op c

unfoldable pub op_exec_sch0r_9 : OpCodeFormatType9 → CpuRegister → Status × CpuRegister
op_exec_sch0r_9 op c = op_exec_schlr_9 false false op c

unfoldable pub op_exec_sch1r_9 : OpCodeFormatType9 → CpuRegister → Status × CpuRegister
op_exec_sch1r_9 op c = op_exec_schlr_9 true false op c
