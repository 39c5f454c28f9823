-- ===== src/Cpu/Psw/Checks.antt =====
-- What the checks after an operation write into the flags.
use athrill_target_rh850f1x.Base.{
  ℕ, ◌+◌, ◌-◌, ◌%◌, ◌^◌, ◌≤◌, ◌≡◌, Bool, ltb, ◌==◌, ◌||◌, arith, bit_and_single, ℤ, pos, negsuc,
  ◌+ℤ◌, ltb_ℤ, signed32,
}
use athrill_target_rh850f1x.Cpu.State.{CpuRegister, Word}
use athrill_target_rh850f1x.Cpu.Psw.{
  op_chk_and_set_carry, op_chk_and_set_carry3, op_chk_and_set_borrow, op_chk_and_set_borrow3,
  op_chk_and_set_overflow, op_chk_and_set_overflow3, op_chk_and_set_zero, op_chk_and_set_sign,
}
use athrill_target_rh850f1x.Cpu.Psw.Flags.{Flags, with_flags, Fits}
use athrill_target_rh850f1x.Cpu.Psw.Laws.{
  set_z-with_flags, set_s-with_flags, set_ov-with_flags, set_cy-with_flags, clr_z-with_flags,
  clr_s-with_flags, clr_ov-with_flags, clr_cy-with_flags,
}

-- The value lies outside the range of sint32.
abbrev pub overflows : ℤ → Bool
overflows x = ltb_ℤ (pos 2147483647) x || ltb_ℤ x (negsuc 2147483647)

-- Bit 31, the sign of a word.
abbrev pub is_negative : ℕ → Bool
is_negative w = ltb_ℤ (signed32 w) (pos 0)

module _ (c : CpuRegister) (f : Flags) (h : Fits f) where
  pub carry-with_flags :
      (a b : ℕ)
      → op_chk_and_set_carry (with_flags c f) a b
        ≡ with_flags c (record f { cy = ltb 0xffff_ffff (a + b) })
  unfolding op_chk_and_set_carry
  carry-with_flags a b = ground (arith, set_cy-with_flags c f, clr_cy-with_flags c f h)

  pub carry3-with_flags :
      (a b d : ℕ)
      → op_chk_and_set_carry3 (with_flags c f) a b d
        ≡ with_flags c (record f { cy = ltb 0xffff_ffff (a + b + d) })
  unfolding op_chk_and_set_carry3
  carry3-with_flags a b d = ground (arith, set_cy-with_flags c f, clr_cy-with_flags c f h)

  pub borrow-with_flags :
      (a b : ℕ)
      → Word a
      → Word b
      → op_chk_and_set_borrow (with_flags c f) a b ≡ with_flags c (record f { cy = ltb a b })
  unfolding op_chk_and_set_borrow
  borrow-with_flags a b p q = ground (
    arith,
    set_cy-with_flags c f,
    clr_cy-with_flags c f h,
    bit_and_single 32 ((a + 2 ^ 64 - b) % 2 ^ 64),
  )

  pub borrow3-with_flags :
      (a b d : ℕ)
      → Word a
      → Word b
      → d ≤ 1
      → op_chk_and_set_borrow3 (with_flags c f) a b d
        ≡ with_flags c (record f { cy = ltb a (b + d) })
  unfolding op_chk_and_set_borrow3
  borrow3-with_flags a b d p q r = ground (
    arith,
    set_cy-with_flags c f,
    clr_cy-with_flags c f h,
    bit_and_single 32 (((a + 2 ^ 64 - b) % 2 ^ 64 + 2 ^ 64 - d) % 2 ^ 64),
  )

  pub overflow-with_flags :
      (a b : ℤ)
      → op_chk_and_set_overflow (with_flags c f) a b
        ≡ with_flags c (record f { ov = overflows (a +ℤ b) })
  unfolding op_chk_and_set_overflow
  overflow-with_flags a b = ground (arith, set_ov-with_flags c f, clr_ov-with_flags c f h)

  pub overflow3-with_flags :
      (a b d : ℤ)
      → op_chk_and_set_overflow3 (with_flags c f) a b d
        ≡ with_flags c (record f { ov = overflows (a +ℤ b +ℤ d) })
  unfolding op_chk_and_set_overflow3
  overflow3-with_flags a b d = ground (arith, set_ov-with_flags c f, clr_ov-with_flags c f h)

  pub zero-with_flags :
      (w : ℕ) → op_chk_and_set_zero (with_flags c f) w ≡ with_flags c (record f { z = w == 0 })
  unfolding op_chk_and_set_zero
  zero-with_flags w = ground (arith, set_z-with_flags c f, clr_z-with_flags c f h)

  pub sign-with_flags :
      (w : ℕ)
      → op_chk_and_set_sign (with_flags c f) w ≡ with_flags c (record f { s = is_negative w })
  unfolding op_chk_and_set_sign
  sign-with_flags w = ground (arith, set_s-with_flags c f, clr_s-with_flags c f h)
