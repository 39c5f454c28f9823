-- ===== src/Cpu/Logic/Effects.antt =====
-- What the logical operations leave.
use athrill_target_rh850f1x.Base.{
  ℕ, ◌-◌, ◌^◌, ◌<◌, ◌≡◌, arith, false, ◌==◌, bit_and, bit_or, bit_xor, length, get_or-set_self,
}
use athrill_target_rh850f1x.Cpu.State.{
  CpuRegister, Status, ok, greg_num, read_reg, write_reg, advance, OpCodeFormatType1,
}
use athrill_target_rh850f1x.Cpu.Psw.{cpu_clr_ov, op_chk_and_set_zero, op_chk_and_set_sign}
use athrill_target_rh850f1x.Cpu.Psw.Flags.{Flags, with_flags, Fits}
use athrill_target_rh850f1x.Cpu.Psw.Laws.{clr_ov-with_flags}
use athrill_target_rh850f1x.Cpu.Psw.Checks.{is_negative, zero-with_flags, sign-with_flags}
use athrill_target_rh850f1x.Cpu.Ops.{op_or, op_and}
use athrill_target_rh850f1x.Cpu.Logic.{
  op_exec_or, op_exec_and, op_exec_xor, op_exec_not, op_exec_tst,
}

-- The flags after a logical operation with the result `v`.
abbrev pub logic_flags : Flags → ℕ → Flags
logic_flags f v = record f { z = v == 0; s = is_negative v; ov = false }

set_logic_flags-with_flags :
    (c : CpuRegister) (f : Flags) (v : ℕ)
    → Fits f
    → cpu_clr_ov (op_chk_and_set_sign (op_chk_and_set_zero (with_flags c f) v) v)
      ≡ with_flags c (logic_flags f v)
set_logic_flags-with_flags c f v h =
    let f1 = record f { z = v == 0 } in
    rw (zero-with_flags c f h v, sign-with_flags c f1 h v)
      (clr_ov-with_flags c (record f1 { s = is_negative v }) h)

-- The same flags, set from the register that has the result.
written-with_flags :
    (c : CpuRegister) (f : Flags) (i v : ℕ)
    → Fits f
    → i < length c.r
    → let c1 = write_reg (with_flags c f) i v in
      let c2 = op_chk_and_set_zero c1 (read_reg c1 i) in
      cpu_clr_ov (op_chk_and_set_sign c2 (read_reg c2 i))
      ≡ with_flags (write_reg c i v) (logic_flags f v)
written-with_flags c f i v h inside =
    let c1 = write_reg c i v in
    let f1 = record f { z = v == 0 } in
    rw
      (
        get_or-set_self c.r i v 0 inside,
        zero-with_flags c1 f h v,
        get_or-set_self c.r i v 0 inside,
        sign-with_flags c1 f1 h v,
      )
      (clr_ov-with_flags c1 (record f1 { s = is_negative v }) h)

module _ (op : OpCodeFormatType1) (c : CpuRegister) (f : Flags) where
  abbrev a : ℕ
  a = read_reg c op.reg2

  abbrev b : ℕ
  b = read_reg c op.reg1

  -- The state after a logical operation that writes `v` into reg2.
  abbrev pub logic_result : ℕ → Status × CpuRegister
  logic_result v = (ok, advance 2 (with_flags (write_reg c op.reg2 v) (logic_flags f v)))

  -- With registers in range, OR, AND, XOR and NOT leave the bit operation on the registers in reg2, and TST of AND nothing;
  -- Z and S are those of the result, OV is off, and the rest of the status word stays.
  pub logic_effects :
      Fits f
      → op.reg1 < greg_num
      → op.reg2 < greg_num
      → length c.r ≡ greg_num
      → (op_exec_or op (with_flags c f) ≡ logic_result (bit_or b a))
        × (op_exec_and op (with_flags c f) ≡ logic_result (bit_and b a))
        × (op_exec_xor op (with_flags c f) ≡ logic_result (bit_xor a b))
        × (op_exec_not op (with_flags c f) ≡ logic_result (2 ^ 32 - 1 - b))
        × (op_exec_tst op (with_flags c f)
            ≡ (ok, advance 2 (with_flags c (logic_flags f (bit_and b a)))))
  unfolding op_exec_or op_exec_and op_exec_xor op_exec_not op_exec_tst op_or op_and
  logic_effects h in1 in2 regs =
      let x = bit_xor a b in
      let n = 2 ^ 32 - 1 - b in
      (
        ground (arith, set_logic_flags-with_flags c f (bit_or b a) h),
        ground (arith, set_logic_flags-with_flags c f (bit_and b a) h),
        ground (arith, written-with_flags c f op.reg2 x h (omega arith)),
        ground (arith, written-with_flags c f op.reg2 n h (omega arith)),
        ground (arith, set_logic_flags-with_flags c f (bit_and b a) h),
      )
