-- ===== src/Cpu/Memory/StoreEffects.antt =====
-- What the stores do, on each way they end, and what a load then reads.
use athrill_target_rh850f1x.Base.{
  ℕ, ◌*◌, ◌%◌, ◌^◌, ◌+◌, ◌<◌, ◌≡◌, refl, if◌then◌else◌, ◌==◌, ◌&&◌, arith, Bool,
}
use native.Mathlib.Nat.{mod-eq_of_lt}
use athrill_target_rh850f1x.Cpu.State.{CpuRegister, ok, failed, read_reg, advance}
use athrill_target_rh850f1x.Cpu.Ops.Zero.{op_zero_extend_lem}
use athrill_target_rh850f1x.Dec.Format.{OpCodeFormatType4_1, OpCodeFormatType7, OpCodeFormatType14}
use athrill_target_rh850f1x.Cpu.Memory.Bus.{Bus, Result, cpu_reg_sp, after_put, address}
use athrill_target_rh850f1x.Cpu.Memory.Store.{
  is_stack_over, op_exec_sstb, op_exec_ssth, op_exec_sstw, op_exec_stb, op_exec_sthw,
  op_exec_st_b_14, op_exec_st_h_14, op_exec_st_w_14,
}
use athrill_target_rh850f1x.Cpu.Memory.LoadEffects.{
  displacement, Fits4, Fits7, Fits14, in_file, low_7, displacement_7, displacement_7_even,
  displacement_14,
}

module _ {M : Type 0} (b : Bus M) where
  -- A store of the `w` low bits of a register at `base + disp`: an error of the bus, or of the check
  -- of the stack where `base` is the stack pointer, changes no register.
  abbrev pub store : (M → ℕ → ℕ → M × Bool) → ℕ → ℕ → ℕ → ℕ → ℕ → CpuRegister → M → Result M
  store put w size base disp src c m =
      let addr = address (read_reg c base) disp in
      let stored =
        after_put c (put m addr (read_reg c src % 2 ^ w)) (λ m'. (ok, advance size c, m')) in
      if base == cpu_reg_sp && is_stack_over b m c base disp then (failed, c, m) else stored

  -- The stores of 32 bits.
  pub store7_effects :
      (d : OpCodeFormatType7) (c : CpuRegister) (m : M)
      → Fits7 d
      → read_reg c d.reg2 < 2 ^ 32
      → let even = displacement 15 (d.disp * 2) in
        (op_exec_stb b d c m
          ≡ store b.put_data8 8 4 d.reg1 (displacement 15 (d.disp * 2 + d.gen)) d.reg2 c m)
        × (op_exec_sthw b d c m ≡ (
            if d.gen == 0
            then store b.put_data16 16 4 d.reg1 even d.reg2 c m
            else store b.put_data32 32 4 d.reg1 even d.reg2 c m))
  unfolding op_exec_stb op_exec_sthw
  store7_effects d c m h word =
      let first = in_file d.reg1 h.0 in
      let second = in_file d.reg2 h.1 in
      let even = displacement_7_even d.disp h.2 in
      (
        rw (first, second, displacement_7 d.disp d.gen h.2 h.3) refl,
        rw (first, second, even, mod-eq_of_lt word) (ground arith),
      )

  -- The stores of 48 bits.
  pub store14_effects :
      (d : OpCodeFormatType14) (c : CpuRegister) (m : M)
      → Fits14 d
      → read_reg c d.reg3 < 2 ^ 32
      → let disp = displacement 22 (d.disp_high * 2 ^ 7 + d.disp_low) in
        (op_exec_st_b_14 b d c m ≡ store b.put_data8 8 6 d.reg1 disp d.reg3 c m)
        × (op_exec_st_h_14 b d c m ≡ store b.put_data16 16 6 d.reg1 disp d.reg3 c m)
        × (op_exec_st_w_14 b d c m ≡ store b.put_data32 32 6 d.reg1 disp d.reg3 c m)
  unfolding op_exec_st_b_14 op_exec_st_h_14 op_exec_st_w_14
  store14_effects d c m h word =
      let first = in_file d.reg1 h.0 in
      let second = in_file d.reg3 h.1 in
      let disp = displacement_14 d.disp_high d.disp_low h.3 h.2 in
      (
        rw (first, second, disp) refl,
        rw (first, second, disp) refl,
        rw (first, second, disp, mod-eq_of_lt word) refl,
      )

  -- The short stores, above the element pointer, r30.
  pub store4_effects :
      (d : OpCodeFormatType4_1) (c : CpuRegister) (m : M)
      → Fits4 d
      → read_reg c d.reg2 < 2 ^ 32
      → let low = d.disp * 2 + d.gen in
        (op_exec_sstb b d c m ≡ store b.put_data8 8 2 30 low d.reg2 c m)
        × (op_exec_ssth b d c m ≡ store b.put_data16 16 2 30 (low * 2) d.reg2 c m)
        × (op_exec_sstw b d c m ≡ store b.put_data32 32 2 30 (d.disp * 4) d.reg2 c m)
  unfolding op_exec_sstb op_exec_ssth op_exec_sstw
  store4_effects d c m h word =
      let first = in_file d.reg2 h.0 in
      let low = low_7 d.disp d.gen h.1 h.2 in
      let even : (d.disp * 2 + d.gen) * 2 % 2 ^ 32 ≡ (d.disp * 2 + d.gen) * 2 =
        mod-eq_of_lt (omega arith) in
      let four : d.disp * 2 ^ 2 % 2 ^ 32 ≡ d.disp * 4 = mod-eq_of_lt (omega arith) in
      (
        rw (first, low) refl,
        rw (first, low, even) refl,
        rw (first, op_zero_extend_lem 6 d.disp (omega arith) h.1, four, mod-eq_of_lt word) refl,
      )
