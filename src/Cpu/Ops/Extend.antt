-- ===== src/Cpu/Ops/Extend.antt =====
-- op_sign_extend and op_zero_extend of src/cpu/cpu_common/cpu_ops.h, which go over the bits.
use athrill_target_rh850f1x.Base.{ℕ, zero, suc, ◌+◌, ◌-◌, ◌^◌, bit_and, bit_or, if◌then◌else◌, ◌==◌}

-- `for (i = bit; i < 32; i++) data |= (1 << i);` with the rounds left.
unfoldable pub fill_ones : ℕ → ℕ → ℕ → ℕ
fill_ones zero i word = word
fill_ones (suc left) i word = fill_ones left (i + 1) (bit_or word (2 ^ i))

unfoldable pub op_sign_extend : ℕ → ℕ → ℕ
unfolding fill_ones
op_sign_extend bit word =
    if bit_and word (2 ^ bit) == 0 then word else fill_ones (32 - bit) bit word

-- `for (i = bit; i < 32; i++) data &= ~(1 << i);` with the rounds left.
unfoldable pub fill_zeros : ℕ → ℕ → ℕ → ℕ
fill_zeros zero i word = word
fill_zeros (suc left) i word = fill_zeros left (i + 1) (bit_and word (2 ^ 32 - 1 - 2 ^ i))

unfoldable pub op_zero_extend : ℕ → ℕ → ℕ
unfolding fill_zeros
op_zero_extend bit word = fill_zeros (32 - bit) bit word

-- OP_FORMAT2_IMM_SIGN_EXTEND
abbrev pub op_format2_imm_sign_extend : ℕ → ℕ
op_format2_imm_sign_extend word = op_sign_extend 4 word

-- OP_FORMAT2_IMM_ZERO_EXTEND
abbrev pub op_format2_imm_zero_extend : ℕ → ℕ
op_format2_imm_zero_extend word = op_zero_extend 5 word
