-- ===== src/Cpu/Arith/Div/Quotient.antt =====
-- What a division leaves in its registers.
use athrill_target_rh850f1x.Base.{
  ℕ, ◌+◌, ◌*◌, ◌/◌, ◌%◌, ◌<◌, ◌≡◌, ◌≢◌, List, sym, ◌∙◌, arith, length, set, get_or, get_or-set_self,
  get_or-set_ne, length-set,
}
use native.Mathlib.Nat.{div-add-mod, mod-lt}
use athrill_target_rh850f1x.Cpu.State.{
  CpuRegister, ok, greg_num, read_reg, write_reg, OpCodeFormatType11,
}
use athrill_target_rh850f1x.Cpu.Psw.{
  cpu_set_ov, cpu_clr_ov, set_mask, clr_mask, op_chk_and_set_zero, op_chk_and_set_sign,
}
use athrill_target_rh850f1x.Cpu.Arith.Format1.{finish_div}
use athrill_target_rh850f1x.Cpu.Arith.Div.{op_exec_divu}
use athrill_target_rh850f1x.Cpu.Arith.Div.Faults.{InRange}

pub finish_div-r : (size i : ℕ) (c : CpuRegister) → (finish_div size i c).1.r ≡ c.r
unfolding finish_div op_chk_and_set_zero op_chk_and_set_sign set_mask clr_mask
finish_div-r size i c = ground arith

-- Two writes, read back.
module _ (xs : List ℕ) (i j v w : ℕ) (hi : i < length xs) (hj : j < length xs) where
  pub get_or-set-set :
      i ≢ j → (get_or (set (set xs i v) j w) i 0 ≡ v) × (get_or (set (set xs i v) j w) j 0 ≡ w)
  get_or-set-set ne = (
    get_or-set_ne (set xs i v) j i w 0 (λ e. ne (sym e)) ∙ get_or-set_self xs i v 0 hi,
    get_or-set_self (set xs i v) j w 0 (rw (length-set xs i v) hj),
  )

module _ (op : OpCodeFormatType11) (c : CpuRegister) where
  abbrev a : ℕ
  a = read_reg c op.reg2

  abbrev b : ℕ
  b = read_reg c op.reg1

  divu-r :
      InRange op c → b ≢ 0 → (op_exec_divu op c).1.r ≡ set (set c.r op.reg2 (a / b)) op.reg3 (a % b)
  unfolding op_exec_divu clr_mask
  divu-r h nz =
      let c1 = write_reg (cpu_clr_ov c) op.reg2 (a / b) in
      ground (arith, finish_div-r 4 op.reg2 (write_reg c1 op.reg3 (a % b)))

  -- DIVU by a divisor that is not 0, with different registers for its two results, leaves the
  -- quotient and the remainder: together with the divisor they give the dividend back, and the
  -- remainder is smaller than the divisor.
  pub divu-quotient :
      InRange op c
      → length c.r ≡ greg_num
      → op.reg2 ≢ op.reg3
      → b ≢ 0
      → let c' = (op_exec_divu op c).1 in
        (read_reg c' op.reg2 * b + read_reg c' op.reg3 ≡ a) × (read_reg c' op.reg3 < b)
  divu-quotient h regs ne nz =
      let back =
        get_or-set-set c.r op.reg2 op.reg3 (a / b) (a % b) (omega arith) (omega arith) ne in
      rw (divu-r h nz, back.0, back.1) (omega (arith, div-add-mod a b), mod-lt a (omega arith))

  -- DIVU by 0, with register numbers in range, returns 0 and changes no register.
  pub divu-zero :
      InRange op c → b ≡ 0 → ((op_exec_divu op c).0 ≡ ok) × ((op_exec_divu op c).1.r ≡ c.r)
  unfolding op_exec_divu set_mask
  divu-zero h z = ground (arith, finish_div-r 4 op.reg2 (cpu_set_ov c))
