-- ===== src/Cpu/Ops.antt =====
-- The shared operations of src/cpu/cpu_common/cpu_ops.h: each takes the registers, sets the flags
-- and returns the result beside the new registers. Words are patterns of 32 bits; a signed sum,
-- product or shift wraps round, as the compilers' code does.
pub mod Extend
pub mod Zero
pub mod Bounds
use athrill_target_rh850f1x.Base.{
  ℕ, zero, suc, ◌+◌, ◌-◌, ◌*◌, ◌%◌, ◌^◌, bit_and, bit_or, bit_xor, Bool, if◌then◌else◌, ltb, ◌==◌,
  ℤ, pos, negsuc, pos_part, neg_part, ◌+ℤ◌, ltb_ℤ, signed32, word32,
}
use athrill_target_rh850f1x.Cpu.State.{CpuRegister}
use athrill_target_rh850f1x.Cpu.Psw.{
  cpu_set_z, cpu_clr_z, cpu_set_s, cpu_clr_s, cpu_clr_ov, cpu_set_sat, op_chk_and_set_carry,
  op_chk_and_set_overflow, op_chk_and_set_zero, op_chk_and_set_sign,
}

-- a + b of two words
abbrev pub add32 : ℕ → ℕ → ℕ
add32 a b = (a + b) % 2 ^ 32

-- a - b of two words
abbrev pub sub32 : ℕ → ℕ → ℕ
sub32 a b = (a + 2 ^ 32 - b) % 2 ^ 32

-- x == 0
abbrev pub is_zero_ℤ : ℤ → Bool
is_zero_ℤ x = pos_part x + neg_part x == 0

unfoldable pub op_addi : CpuRegister → ℕ → ℕ → ℕ × CpuRegister
op_addi c imm_data reg1_data =
    let result = add32 reg1_data imm_data in
    let c1 = op_chk_and_set_carry c imm_data reg1_data in
    let c2 = op_chk_and_set_overflow c1 (signed32 imm_data) (signed32 reg1_data) in
    (result, op_chk_and_set_sign (op_chk_and_set_zero c2 result) result)

unfoldable pub op_andi : CpuRegister → ℕ → ℕ → ℕ × CpuRegister
op_andi c imm_data reg1_data =
    let result = bit_and reg1_data imm_data in
    (result, cpu_clr_ov (op_chk_and_set_sign (op_chk_and_set_zero c result) result))

unfoldable pub op_and : CpuRegister → ℕ → ℕ → ℕ × CpuRegister
op_and c reg2_data reg1_data =
    let result = bit_and reg1_data reg2_data in
    (result, cpu_clr_ov (op_chk_and_set_sign (op_chk_and_set_zero c result) result))

unfoldable pub op_or : CpuRegister → ℕ → ℕ → ℕ × CpuRegister
op_or c reg2_data reg1_data =
    let result = bit_or reg1_data reg2_data in
    (result, cpu_clr_ov (op_chk_and_set_sign (op_chk_and_set_zero c result) result))

unfoldable pub op_movea : ℕ → ℕ → ℕ
op_movea imm_data reg1_data = add32 reg1_data imm_data

unfoldable pub op_movhi : ℕ → ℕ → ℕ
op_movhi imm_data reg1_data = add32 reg1_data (imm_data * 2 ^ 16 % 2 ^ 32)

-- Both arguments are sint32.
unfoldable pub op_mulhi : ℕ → ℕ → ℕ
op_mulhi imm_data reg1_data = reg1_data * imm_data % 2 ^ 32

unfoldable pub op_ori : CpuRegister → ℕ → ℕ → ℕ × CpuRegister
op_ori c imm_data reg1_data =
    let ret = bit_or reg1_data (imm_data % 2 ^ 16) in
    let c1 = if ret == 0 then cpu_set_z c else cpu_clr_z c in
    let c2 = if bit_and ret 0x8000_0000 == 0 then cpu_clr_s c1 else cpu_set_s c1 in (ret, c2)

-- What op_satadd returns and whether it sets SAT, from the sum in sint64.
unfoldable pub saturate : CpuRegister → ℤ → ℕ × CpuRegister
saturate c ret64 =
    if ltb_ℤ (pos 2147483647) ret64
    then (2147483647, cpu_set_sat c)
    else if ltb_ℤ ret64 (negsuc 2147483647)
    then (2147483648, cpu_set_sat c)
    else (word32 ret64, c)

-- `data_l` is a sint32, `data_r` a sint64 of 33 bits at most.
unfoldable pub op_satadd : CpuRegister → ℕ → ℤ → ℕ × CpuRegister
unfolding saturate
op_satadd c data_l data_r =
    let ret64 = signed32 data_l +ℤ data_r in
    let c1 = op_chk_and_set_carry c data_l (word32 data_r) in
    let c2 = op_chk_and_set_overflow c1 (signed32 data_l) data_r in
    let (ret, c3) = saturate c2 ret64 in
    let c4 = if ltb_ℤ ret64 (pos 0) then cpu_set_s c3 else cpu_clr_s c3 in
    let c5 = if is_zero_ℤ ret64 then cpu_set_z c4 else cpu_clr_z c4 in (ret, c5)

unfoldable pub op_xori : CpuRegister → ℕ → ℕ → ℕ × CpuRegister
op_xori c imm_data reg1_data =
    let ret = bit_xor reg1_data (imm_data % 2 ^ 16) in
    let c1 = if ret == 0 then cpu_set_z c else cpu_clr_z c in
    let c2 = if ltb_ℤ (signed32 ret) (pos 0) then cpu_set_s c1 else cpu_clr_s c1 in
    (ret, cpu_clr_ov c2)
