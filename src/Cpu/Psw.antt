-- ===== src/Cpu/Psw.antt =====
-- The flags of the program status word: the macros of src/cpu/cpu_common/cpu_ops.h, and the
-- checks of src/cpu/cpu_exec/op_exec_arithm.c that set them.
pub mod Flags
pub mod Laws
pub mod Checks
use athrill_target_rh850f1x.Base.{
  ℕ, ◌+◌, ◌-◌, ◌%◌, ◌^◌, bit_and, bit_or, Bool, if◌then◌else◌, ltb, ◌==◌, ℤ, pos, negsuc, ◌+ℤ◌,
  ltb_ℤ, signed32,
}
use athrill_target_rh850f1x.Cpu.State.{CpuRegister}

abbrev pub cpu_psw_z : ℕ
cpu_psw_z = 2 ^ 0

abbrev pub cpu_psw_s : ℕ
cpu_psw_s = 2 ^ 1

abbrev pub cpu_psw_ov : ℕ
cpu_psw_ov = 2 ^ 2

abbrev pub cpu_psw_cy : ℕ
cpu_psw_cy = 2 ^ 3

abbrev pub cpu_psw_sat : ℕ
cpu_psw_sat = 2 ^ 4

-- `psw |= mask`
unfoldable pub set_mask : ℕ → CpuRegister → CpuRegister
set_mask mask c = record c { psw = bit_or c.psw mask }

-- `psw &= ~mask`
unfoldable pub clr_mask : ℕ → CpuRegister → CpuRegister
clr_mask mask c = record c { psw = bit_and c.psw (2 ^ 32 - 1 - mask) }

-- `(psw & mask) == mask`
unfoldable pub isset_mask : ℕ → CpuRegister → Bool
isset_mask mask c = bit_and c.psw mask == mask

abbrev pub cpu_set_z : CpuRegister → CpuRegister
cpu_set_z = set_mask cpu_psw_z

abbrev pub cpu_clr_z : CpuRegister → CpuRegister
cpu_clr_z = clr_mask cpu_psw_z

abbrev pub cpu_isset_z : CpuRegister → Bool
cpu_isset_z = isset_mask cpu_psw_z

abbrev pub cpu_set_s : CpuRegister → CpuRegister
cpu_set_s = set_mask cpu_psw_s

abbrev pub cpu_clr_s : CpuRegister → CpuRegister
cpu_clr_s = clr_mask cpu_psw_s

abbrev pub cpu_isset_s : CpuRegister → Bool
cpu_isset_s = isset_mask cpu_psw_s

abbrev pub cpu_set_ov : CpuRegister → CpuRegister
cpu_set_ov = set_mask cpu_psw_ov

abbrev pub cpu_clr_ov : CpuRegister → CpuRegister
cpu_clr_ov = clr_mask cpu_psw_ov

abbrev pub cpu_isset_ov : CpuRegister → Bool
cpu_isset_ov = isset_mask cpu_psw_ov

abbrev pub cpu_set_cy : CpuRegister → CpuRegister
cpu_set_cy = set_mask cpu_psw_cy

abbrev pub cpu_clr_cy : CpuRegister → CpuRegister
cpu_clr_cy = clr_mask cpu_psw_cy

abbrev pub cpu_isset_cy : CpuRegister → Bool
cpu_isset_cy = isset_mask cpu_psw_cy

abbrev pub cpu_set_sat : CpuRegister → CpuRegister
cpu_set_sat = set_mask cpu_psw_sat

abbrev pub cpu_isset_sat : CpuRegister → Bool
cpu_isset_sat = isset_mask cpu_psw_sat

-- The sum of two uint32 is taken in uint64, where it fits.
unfoldable pub op_chk_and_set_carry : CpuRegister → ℕ → ℕ → CpuRegister
op_chk_and_set_carry c a32 b32 = if ltb 0xffff_ffff (a32 + b32) then cpu_set_cy c else cpu_clr_cy c

unfoldable pub op_chk_and_set_carry3 : CpuRegister → ℕ → ℕ → ℕ → CpuRegister
op_chk_and_set_carry3 c a32 b32 c32 =
    if ltb 0xffff_ffff (a32 + b32 + c32) then cpu_set_cy c else cpu_clr_cy c

-- The difference wraps round in uint64; bit 32 of it is tested.
unfoldable pub op_chk_and_set_borrow : CpuRegister → ℕ → ℕ → CpuRegister
op_chk_and_set_borrow c a32 b32 =
    if bit_and ((a32 + 2 ^ 64 - b32) % 2 ^ 64) (2 ^ 32) == 0 then cpu_clr_cy c else cpu_set_cy c

unfoldable pub op_chk_and_set_borrow3 : CpuRegister → ℕ → ℕ → ℕ → CpuRegister
op_chk_and_set_borrow3 c a32 b32 c32 =
    if bit_and (((a32 + 2 ^ 64 - b32) % 2 ^ 64 + 2 ^ 64 - c32) % 2 ^ 64) (2 ^ 32) == 0
    then cpu_clr_cy c
    else cpu_set_cy c

-- The operands are sint64 of 33 bits at most, so the sum does not wrap.
unfoldable pub op_chk_and_set_overflow : CpuRegister → ℤ → ℤ → CpuRegister
op_chk_and_set_overflow c a64 b64 =
    let result = a64 +ℤ b64 in
    if ltb_ℤ (pos 2147483647) result
    then cpu_set_ov c
    else if ltb_ℤ result (negsuc 2147483647)
    then cpu_set_ov c
    else cpu_clr_ov c

unfoldable pub op_chk_and_set_overflow3 : CpuRegister → ℤ → ℤ → ℤ → CpuRegister
op_chk_and_set_overflow3 c a64 b64 c64 =
    let result = a64 +ℤ b64 +ℤ c64 in
    if ltb_ℤ (pos 2147483647) result
    then cpu_set_ov c
    else if ltb_ℤ result (negsuc 2147483647)
    then cpu_set_ov c
    else cpu_clr_ov c

unfoldable pub op_chk_and_set_zero : CpuRegister → ℕ → CpuRegister
op_chk_and_set_zero c result = if result == 0 then cpu_set_z c else cpu_clr_z c

unfoldable pub op_chk_and_set_sign : CpuRegister → ℕ → CpuRegister
op_chk_and_set_sign c result = if ltb_ℤ (signed32 result) (pos 0) then cpu_set_s c else cpu_clr_s c
