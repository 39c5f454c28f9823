-- ===== src/Cpu/Memory/LoadEffects.antt =====
-- What the loads do, on each way they end, from the fields of their formats.
use athrill_target_rh850f1x.Base.{
  ℕ, ◌*◌, ◌%◌, ◌^◌, ◌+◌, ◌-◌, ◌<◌, ◌≡◌, refl, bit_or, if◌then◌else◌, leb, ltb, ◌==◌, arith, Option,
  false, bit_or_fields, bit_and_mask,
}
use native.Mathlib.Nat.{mod-eq_of_lt}
use athrill_target_rh850f1x.Cpu.State.{CpuRegister, read_reg, greg_num}
use athrill_target_rh850f1x.Cpu.Ops.Extend.{op_sign_extend, op_zero_extend}
use athrill_target_rh850f1x.Cpu.Ops.Bounds.{op_sign_extend_lem}
use athrill_target_rh850f1x.Cpu.Ops.Zero.{op_zero_extend_lem}
use athrill_target_rh850f1x.Dec.Format.{
  OpCodeFormatType4_1, OpCodeFormatType4_2, OpCodeFormatType7, OpCodeFormatType14,
}
use athrill_target_rh850f1x.Cpu.Memory.Bus.{Bus, Result, after_get, loaded, sext8, sext16, address}
use athrill_target_rh850f1x.Cpu.Memory.Load.{
  op_exec_sldb, op_exec_sldbu, op_exec_sldh, op_exec_sldhu, op_exec_sldw, op_exec_ldb, op_exec_ldbu,
  op_exec_ldhu, op_exec_ldhw,
}
use athrill_target_rh850f1x.Cpu.Memory.Load14.{
  op_exec_ld_b_14, op_exec_ld_bu_14, op_exec_ld_h_14, op_exec_ld_hu_14, op_exec_ld_w_14,
}

-- A signed displacement whose sign is bit `k`, as a word.
abbrev pub displacement : ℕ → ℕ → ℕ
displacement k d = if ltb d (2 ^ k) then d else d + 2 ^ 32 - 2 ^ (k + 1)

-- The fields of a decoded instruction.
abbrev pub Fits4 : OpCodeFormatType4_1 → Type 0
Fits4 d = (d.reg2 < 32) × (d.disp < 2 ^ 6) × (d.gen < 2)

abbrev pub Fits7 : OpCodeFormatType7 → Type 0
Fits7 d = (d.reg1 < 32) × (d.reg2 < 32) × (d.disp < 2 ^ 15) × (d.gen < 2)

abbrev pub Fits14 : OpCodeFormatType14 → Type 0
Fits14 d = (d.reg1 < 32) × (d.reg3 < 32) × (d.disp_low < 2 ^ 7) × (d.disp_high < 2 ^ 16)

-- The test of a register number passes.
pub in_file : (i : ℕ) → i < 32 → leb greg_num i ≡ false
in_file i h = ground arith

pub low_bit : (disp gen : ℕ) → gen < 2 → bit_or (disp * 2) gen ≡ disp * 2 + gen
low_bit disp gen h = bit_or_fields 1 disp gen h

pub displacement_7 :
    (disp gen : ℕ)
    → disp < 2 ^ 15
    → gen < 2
    → op_sign_extend 15 (bit_or (disp * 2) gen) ≡ displacement 15 (disp * 2 + gen)
displacement_7 disp gen h g =
    rw (low_bit disp gen g) (op_sign_extend_lem 15 (disp * 2 + gen) (omega arith) (omega arith))

pub displacement_7_even :
    (disp : ℕ) → disp < 2 ^ 15 → op_sign_extend 15 (disp * 2) ≡ displacement 15 (disp * 2)
displacement_7_even disp h = op_sign_extend_lem 15 (disp * 2) (omega arith) (omega arith)

pub displacement_14 :
    (high low : ℕ)
    → high < 2 ^ 16
    → low < 2 ^ 7
    → op_sign_extend 22 (bit_or (high * 2 ^ 7) low) ≡ displacement 22 (high * 2 ^ 7 + low)
displacement_14 high low h l =
    rw (bit_or_fields 7 high low l)
      (op_sign_extend_lem 22 (high * 2 ^ 7 + low) (omega arith) (omega arith))

-- A displacement of seven bits is not cut off.
pub low_7 :
    (disp gen : ℕ)
    → disp < 2 ^ 6
    → gen < 2
    → op_zero_extend 7 (bit_or (disp * 2) gen) ≡ disp * 2 + gen
low_7 disp gen h g =
    rw (low_bit disp gen g) (op_zero_extend_lem 7 (disp * 2 + gen) (omega arith) (omega arith))

module _ {M : Type 0} (b : Bus M) where
  -- A load: the value that `get` reads at `base + disp`, or an error that changes no register.
  abbrev pub load : (M → ℕ → M × Option ℕ) → (ℕ → ℕ) → ℕ → ℕ → ℕ → ℕ → CpuRegister → M → Result M
  load get extend size base disp dst c m =
      let addr = address (read_reg c base) disp in
      after_get c (get m addr) (λ m' v. loaded c dst (extend v) size m')

  -- The loads of 32 bits read a byte at any displacement, and a halfword or a word at an even one;
  -- `gen` tells a word from a halfword, and the lowest opcode bit belongs to LD.BU.
  pub load7_effects :
      (d : OpCodeFormatType7) (c : CpuRegister) (m : M)
      → Fits7 d
      → let even = displacement 15 (d.disp * 2) in
        (op_exec_ldb b d c m
          ≡ load b.get_data8 sext8 4 d.reg1 (displacement 15 (d.disp * 2 + d.gen)) d.reg2 c m)
        × (op_exec_ldbu b d c m
            ≡ load b.get_data8
                (λ v. v)
                4
                d.reg1
                (displacement 15 (d.disp * 2 + d.opcode % 2))
                d.reg2
                c
                m)
        × (op_exec_ldhu b d c m ≡ load b.get_data16 (λ v. v) 4 d.reg1 even d.reg2 c m)
        × (op_exec_ldhw b d c m ≡ (
            if d.gen == 0
            then load b.get_data16 sext16 4 d.reg1 even d.reg2 c m
            else load b.get_data32 (λ v. v) 4 d.reg1 even d.reg2 c m))
  unfolding op_exec_ldb op_exec_ldbu op_exec_ldhu op_exec_ldhw
  load7_effects d c m h =
      let even = displacement_7_even d.disp h.2 in
      let first = in_file d.reg1 h.0 in
      let second = in_file d.reg2 h.1 in
      (
        rw (first, second, displacement_7 d.disp d.gen h.2 h.3) refl,
        rw
            (
              first,
              second,
              bit_and_mask 1 d.opcode,
              displacement_7 d.disp (d.opcode % 2) h.2 (omega arith),
            )
            refl,
        rw (first, second, even) refl,
        rw (first, second, even) refl,
      )

  -- The loads of 48 bits read at a signed displacement of 23 bits.
  pub load14_effects :
      (d : OpCodeFormatType14) (c : CpuRegister) (m : M)
      → Fits14 d
      → let disp = displacement 22 (d.disp_high * 2 ^ 7 + d.disp_low) in
        (op_exec_ld_b_14 b d c m ≡ load b.get_data8 sext8 6 d.reg1 disp d.reg3 c m)
        × (op_exec_ld_bu_14 b d c m ≡ load b.get_data8 (λ v. v) 6 d.reg1 disp d.reg3 c m)
        × (op_exec_ld_h_14 b d c m ≡ load b.get_data16 sext16 6 d.reg1 disp d.reg3 c m)
        × (op_exec_ld_hu_14 b d c m ≡ load b.get_data16 (λ v. v) 6 d.reg1 disp d.reg3 c m)
        × (op_exec_ld_w_14 b d c m ≡ load b.get_data32 (λ v. v) 6 d.reg1 disp d.reg3 c m)
  unfolding op_exec_ld_b_14 op_exec_ld_bu_14 op_exec_ld_h_14 op_exec_ld_hu_14 op_exec_ld_w_14
  load14_effects d c m h =
      let first = in_file d.reg1 h.0 in
      let second = in_file d.reg3 h.1 in
      let disp = displacement_14 d.disp_high d.disp_low h.3 h.2 in
      (
        rw (first, second, disp) refl,
        rw (first, second, disp) refl,
        rw (first, second, disp) refl,
        rw (first, second, disp) refl,
        rw (first, second, disp) refl,
      )

  -- The short loads read above the element pointer, r30: a byte, a halfword or a word at an unsigned
  -- displacement that counts such elements, and `gen` is no part of it for a word.
  pub load4_effects :
      (d : OpCodeFormatType4_1) (e : OpCodeFormatType4_2) (c : CpuRegister) (m : M)
      → Fits4 d
      → e.reg2 < 32
      → e.disp < 2 ^ 4
      → let low = d.disp * 2 + d.gen in
        (op_exec_sldb b d c m ≡ load b.get_data8 sext8 2 30 low d.reg2 c m)
        × (op_exec_sldh b d c m ≡ load b.get_data16 sext16 2 30 (low * 2) d.reg2 c m)
        × (op_exec_sldw b d c m ≡ load b.get_data32 (λ v. v) 2 30 (d.disp * 4) d.reg2 c m)
        × (op_exec_sldbu b e c m ≡ load b.get_data8 (λ v. v) 2 30 e.disp e.reg2 c m)
        × (op_exec_sldhu b e c m ≡ load b.get_data16 (λ v. v) 2 30 (e.disp * 2) e.reg2 c m)
  unfolding op_exec_sldb op_exec_sldh op_exec_sldw op_exec_sldbu op_exec_sldhu
  load4_effects d e c m h h' le =
      let first = in_file d.reg2 h.0 in
      let second = in_file e.reg2 h' in
      let low = low_7 d.disp d.gen h.1 h.2 in
      let even : (d.disp * 2 + d.gen) * 2 % 2 ^ 32 ≡ (d.disp * 2 + d.gen) * 2 =
        mod-eq_of_lt (omega arith) in
      let four : d.disp * 2 ^ 2 % 2 ^ 32 ≡ d.disp * 4 = mod-eq_of_lt (omega arith) in
      (
        rw (first, low) refl,
        rw (first, low, even) refl,
        rw (first, op_zero_extend_lem 6 d.disp (omega arith) h.1, four) refl,
        rw (second, op_zero_extend_lem 4 e.disp (omega arith) le) refl,
        rw (second, op_zero_extend_lem 5 (e.disp * 2) (omega arith) (omega arith)) refl,
      )
