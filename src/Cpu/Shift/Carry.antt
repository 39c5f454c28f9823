-- ===== src/Cpu/Shift/Carry.antt =====
-- The result and the flags of a shift.
use athrill_target_rh850f1x.Base.{
  ℕ, zero, suc, ◌-◌, ◌*◌, ◌/◌, ◌%◌, ◌^◌, ◌≤◌, ◌<◌, ◌≡◌, ◌≢◌, arith, refl, Bool, false, ◌&&◌,
  if◌then◌else◌, ltb, ◌==◌, bit_and, bit_at, bit_and_single, bit_and_mask, length, get_or-set_self,
  pos, negsuc, signed32,
}
use native.Mathlib.Nat.{one-le-pow, div-le_self, div-div-eq-div-mul}
use athrill_target_rh850f1x.Cpu.State.{
  CpuRegister, Status, ok, greg_num, read_reg, write_reg, advance, Word, OpCodeFormatType9,
  OpCodeFormatType11,
}
use athrill_target_rh850f1x.Cpu.Psw.{set_mask, clr_mask, op_chk_and_set_zero, op_chk_and_set_sign}
use athrill_target_rh850f1x.Cpu.Psw.Flags.{Flags, with_flags, Fits}
use athrill_target_rh850f1x.Cpu.Psw.Laws.{set_cy-with_flags, clr_cy-with_flags, clr_ov-with_flags}
use athrill_target_rh850f1x.Cpu.Psw.Checks.{is_negative, zero-with_flags, sign-with_flags}
use athrill_target_rh850f1x.Cpu.Shift.{
  op_chk_and_set_shl_carry, op_chk_and_set_shr_carry, shl32, shr32, sar32, finish_shift,
  op_exec_shl_9, op_exec_shr_9, op_exec_sar_9, op_exec_sar_11,
}

bit_at-le : (w k : ℕ) → bit_at w k ≤ 1
bit_at-le w k = omega arith

single_test : (k w : ℕ) → (bit_and w (2 ^ k) == 0) ≡ (bit_at w k == 0)
single_test k w = rw (bit_and_single k w) (grind (arith, one-le-pow k 2, bit_at-le w k))

module _ (c : CpuRegister) (f : Flags) (h : Fits f) (w sh : ℕ) where
  pub shl_carry-with_flags :
      op_chk_and_set_shl_carry (with_flags c f) w sh
      ≡ with_flags c (record f { cy = ltb 0 sh && bit_at w (32 - sh) == 1 })
  unfolding op_chk_and_set_shl_carry
  shl_carry-with_flags = ground (
    arith,
    single_test (32 - sh) w,
    bit_at-le w (32 - sh),
    set_cy-with_flags c f,
    clr_cy-with_flags c f h,
  )

  pub shr_carry-with_flags :
      op_chk_and_set_shr_carry (with_flags c f) w sh
      ≡ with_flags c (record f { cy = ltb 0 sh && bit_at w (sh - 1) == 1 })
  unfolding op_chk_and_set_shr_carry
  shr_carry-with_flags = ground (
    arith,
    single_test (sh - 1) w,
    bit_at-le w (sh - 1),
    set_cy-with_flags c f,
    clr_cy-with_flags c f h,
  )

-- The flags after a shift to `v` with the last bit out `out`.
abbrev pub shift_flags : Flags → Bool → ℕ → Flags
shift_flags f out v = record f { ov = false; cy = out; z = v == 0; s = is_negative v }

-- Where the destination is reg2 itself, Z and S are those of the result.
finish_shift_lem :
    (chk : CpuRegister → ℕ → ℕ → CpuRegister) (size i a n v : ℕ) (c : CpuRegister) (f : Flags)
    (out : Bool)
    → Fits f
    → i < length c.r
    → chk (with_flags (write_reg c i v) (record f { ov = false })) a n
      ≡ with_flags (write_reg c i v) (record f { ov = false; cy = out })
    → finish_shift chk size i i a n v (with_flags c f)
      ≡ (ok, advance size (with_flags (write_reg c i v) (shift_flags f out v)))
unfolding finish_shift
finish_shift_lem chk size i a n v c f out h inside e =
    let f1 = record f { ov = false; cy = out } in
    let f2 = record f1 { z = v == 0 } in
    rw (
      clr_ov-with_flags (write_reg c i v) f h,
      e,
      get_or-set_self c.r i v 0 inside,
      zero-with_flags (write_reg c i v) f1 h v,
      get_or-set_self c.r i v 0 inside,
      sign-with_flags (write_reg c i v) f2 h v,
    )

-- A shift of a sint32 divides and rounds down.
sar32_floor :
    (w n : ℕ)
    → Word w
    → signed32 (sar32 w n)
      ≡ (if ltb w (2 ^ 31) then pos (w / 2 ^ n) else negsuc ((2 ^ 32 - w - 1) / 2 ^ n))
sar32_floor w n h = ground (arith, div-le_self w (2 ^ n), div-le_self (2 ^ 32 - 1 - w) (2 ^ n))

module _ (op : OpCodeFormatType9) (c : CpuRegister) (f : Flags) where
  abbrev a : ℕ
  a = read_reg c op.reg2

  -- The count is the lower five bits of reg1.
  abbrev n : ℕ
  n = read_reg c op.gen % 2 ^ 5

  abbrev effect : Bool → ℕ → Status × CpuRegister
  effect out v = (ok, advance 4 (with_flags (write_reg c op.reg2 v) (shift_flags f out v)))

  -- The shifts of a word by a register, both registers in range: SHL, SHR and SAR leave in reg2 the product with 2 ^ n as a word, the
  -- quotient, and the signed quotient rounded down; CY is the last bit shifted out (none for
  -- n = 0), OV is off, Z and S are those of the result.
  pub shift_effects :
      Fits f
      → op.gen < greg_num
      → op.reg2 < greg_num
      → length c.r ≡ greg_num
      → Word a
      → (op_exec_shl_9 op (with_flags c f)
          ≡ effect (ltb 0 n && bit_at a (32 - n) == 1) (a * 2 ^ n % 2 ^ 32))
        × (op_exec_shr_9 op (with_flags c f)
            ≡ effect (ltb 0 n && bit_at a (n - 1) == 1) (a / 2 ^ n))
        × (op_exec_sar_9 op (with_flags c f)
            ≡ effect (ltb 0 n && bit_at a (n - 1) == 1) (sar32 a n))
        × (signed32 (sar32 a n)
            ≡ (if ltb a (2 ^ 31) then pos (a / 2 ^ n) else negsuc ((2 ^ 32 - a - 1) / 2 ^ n)))
  unfolding op_exec_shl_9 op_exec_shr_9 op_exec_sar_9
  shift_effects h in1 in2 regs word =
      let f0 = record f { ov = false } in
      let s = shl32 a n in
      (
        rw (bit_and_mask 5 (read_reg c op.gen)) (
            ground (
              arith,
              finish_shift_lem op_chk_and_set_shl_carry 4 op.reg2 a n (shl32 a n) c f
                  (ltb 0 n && bit_at a (32 - n) == 1) h (omega arith)
                  (shl_carry-with_flags (write_reg c op.reg2 (shl32 a n)) f0 h a n),
            )),
        rw (bit_and_mask 5 (read_reg c op.gen)) (
            ground (
              arith,
              finish_shift_lem op_chk_and_set_shr_carry 4 op.reg2 a n (shr32 a n) c f
                  (ltb 0 n && bit_at a (n - 1) == 1) h (omega arith)
                  (shr_carry-with_flags (write_reg c op.reg2 (shr32 a n)) f0 h a n),
            )),
        rw (bit_and_mask 5 (read_reg c op.gen)) (
            ground (
              arith,
              finish_shift_lem op_chk_and_set_shr_carry 4 op.reg2 a n (sar32 a n) c f
                  (ltb 0 n && bit_at a (n - 1) == 1) h (omega arith)
                  (shr_carry-with_flags (write_reg c op.reg2 (sar32 a n)) f0 h a n),
            )),
        sar32_floor a n word,
      )

half_of : (w k : ℕ) → 0 < k → w / 2 ^ k ≤ w / 2
half_of w zero p = elim p [ ]
half_of w (suc k) p =
    let double : 2 ^ suc k ≡ 2 * 2 ^ k = omega arith in
    rw (double, ← div-div-eq-div-mul w 2 (2 ^ k)) (div-le_self (w / 2) (2 ^ k))

-- A negative word shifted as a uint32 is not its shift as a sint32.
shr32-ne-sar32 : (w n : ℕ) → Word w → 2 ^ 31 ≤ w → 0 < n → n < 32 → shr32 w n ≢ sar32 w n
shr32-ne-sar32 w n word neg p small =
    ground (arith, half_of w n p, div-le_self (2 ^ 32 - 1 - w) (2 ^ n))

sar_11-reg3 :
    (op : OpCodeFormatType11) (c : CpuRegister)
    → op.reg1 < greg_num
    → op.reg2 < greg_num
    → op.reg3 < greg_num
    → length c.r ≡ greg_num
    → read_reg (op_exec_sar_11 op c).1 op.reg3
      ≡ read_reg c op.reg2 / 2 ^ (read_reg c op.reg1 % 2 ^ 5)
unfolding op_exec_sar_11 finish_shift op_chk_and_set_shr_carry op_chk_and_set_zero
    op_chk_and_set_sign set_mask clr_mask
sar_11-reg3 op c in1 in2 in3 regs =
    let n = read_reg c op.reg1 % 2 ^ 5 in
    let v = read_reg c op.reg2 / 2 ^ n in
    rw (bit_and_mask 5 (read_reg c op.reg1))
      (ground (arith, get_or-set_self c.r op.reg3 v 0 (omega arith)))

-- The SAR of three registers shifts the word as a uint32. Of a negative word, by a count that is
-- not 0, the reg3 that it leaves is so never the arithmetic shift.
pub sar_11_logical :
    (op : OpCodeFormatType11) (c : CpuRegister)
    → op.reg1 < greg_num
    → op.reg2 < greg_num
    → op.reg3 < greg_num
    → length c.r ≡ greg_num
    → Word (read_reg c op.reg2)
    → 2 ^ 31 ≤ read_reg c op.reg2
    → 0 < read_reg c op.reg1 % 2 ^ 5
    → let c' = (op_exec_sar_11 op c).1 in
      let n = read_reg c op.reg1 % 2 ^ 5 in
      (read_reg c' op.reg3 ≡ read_reg c op.reg2 / 2 ^ n)
      × (read_reg c' op.reg3 ≢ sar32 (read_reg c op.reg2) n)
sar_11_logical op c in1 in2 in3 regs word neg p =
    let n = read_reg c op.reg1 % 2 ^ 5 in
    rw (sar_11-reg3 op c in1 in2 in3 regs)
      (refl, shr32-ne-sar32 (read_reg c op.reg2) n word neg p (omega arith))
