-- ===== src/Cpu/Arith/Format1/Effects.antt =====
-- What the additions and subtractions of two registers do to the whole state.
use athrill_target_rh850f1x.Base.{ℕ, ◌+◌, ◌<◌, ◌≡◌, ltb, ◌==◌, arith, ◌+ℤ◌, neg_ℤ, signed32}
use athrill_target_rh850f1x.Cpu.State.{
  CpuRegister, ok, greg_num, read_reg, write_reg, advance, Word, OpCodeFormatType1,
}
use athrill_target_rh850f1x.Cpu.Psw.Flags.{Flags, with_flags, Fits}
use athrill_target_rh850f1x.Cpu.Psw.Checks.{
  overflows, is_negative, carry-with_flags, borrow-with_flags, overflow-with_flags, zero-with_flags,
  sign-with_flags,
}
use athrill_target_rh850f1x.Cpu.Ops.{add32, sub32}
use athrill_target_rh850f1x.Cpu.Arith.Format1.{
  set_sub_flags, set_add_flags, op_exec_sub, op_exec_subr, op_exec_cmp_1, op_exec_add_1,
}

-- The flags after `a - b`: borrow of the unsigned difference, overflow of the signed one, and zero
-- and sign of the result.
abbrev pub sub_flags : Flags → ℕ → ℕ → Flags
sub_flags f a b = record f {
  cy = ltb a b;
  ov = overflows (signed32 a +ℤ neg_ℤ (signed32 b));
  z = sub32 a b == 0;
  s = is_negative (sub32 a b);
}

-- The flags after `a + b`.
abbrev pub add_flags : Flags → ℕ → ℕ → Flags
add_flags f a b = record f {
  cy = ltb 0xffff_ffff (a + b);
  ov = overflows (signed32 a +ℤ signed32 b);
  z = add32 a b == 0;
  s = is_negative (add32 a b);
}

module _ (c : CpuRegister) (f : Flags) (h : Fits f) (a b : ℕ) where
  pub set_sub_flags-with_flags :
      Word a
      → Word b
      → set_sub_flags (with_flags c f) a b (sub32 a b) ≡ with_flags c (sub_flags f a b)
  unfolding set_sub_flags
  set_sub_flags-with_flags p q =
      let f1 = record f { cy = ltb a b } in
      let f2 = record f1 { ov = overflows (signed32 a +ℤ neg_ℤ (signed32 b)) } in
      let f3 = record f2 { z = sub32 a b == 0 } in
      rw (
        borrow-with_flags c f h a b p q,
        overflow-with_flags c f1 h (signed32 a) (neg_ℤ (signed32 b)),
        zero-with_flags c f2 h (sub32 a b),
        sign-with_flags c f3 h (sub32 a b),
      )

  pub set_add_flags-with_flags :
      set_add_flags (with_flags c f) a b (add32 a b) ≡ with_flags c (add_flags f a b)
  unfolding set_add_flags
  set_add_flags-with_flags =
      let f1 = record f { cy = ltb 0xffff_ffff (a + b) } in
      let f2 = record f1 { ov = overflows (signed32 a +ℤ signed32 b) } in
      let f3 = record f2 { z = add32 a b == 0 } in
      rw (
        carry-with_flags c f h a b,
        overflow-with_flags c f1 h (signed32 a) (signed32 b),
        zero-with_flags c f2 h (add32 a b),
        sign-with_flags c f3 h (add32 a b),
      )

module _ (op : OpCodeFormatType1) (c : CpuRegister) where
  abbrev pub val1 : ℕ
  val1 = read_reg c op.reg1

  abbrev pub val2 : ℕ
  val2 = read_reg c op.reg2

  -- The state after an operation of two bytes that writes `v` into reg2.
  abbrev pub result_in_reg2 : ℕ → Flags → CpuRegister
  result_in_reg2 v f = advance 2 (with_flags (write_reg c op.reg2 v) f)

module _ (op : OpCodeFormatType1) (c : CpuRegister) (f : Flags) where
  -- On words in registers in range, SUB leaves reg2 - reg1 in reg2, SUBR reg1 - reg2, ADD their sum, CMP nothing; each
  -- sets CY, OV, Z and S from exactly that operation, leaves the rest of the status word, and goes
  -- on by 2.
  pub add_sub_effects :
      Fits f
      → op.reg1 < greg_num
      → op.reg2 < greg_num
      → Word (val1 op c)
      → Word (val2 op c)
      → let a = val2 op c in
        let b = val1 op c in
        (op_exec_sub op (with_flags c f) ≡ (ok, result_in_reg2 op c (sub32 a b) (sub_flags f a b)))
        × (op_exec_subr op (with_flags c f)
            ≡ (ok, result_in_reg2 op c (sub32 b a) (sub_flags f b a)))
        × (op_exec_cmp_1 op (with_flags c f) ≡ (ok, advance 2 (with_flags c (sub_flags f a b))))
        × (op_exec_add_1 op (with_flags c f)
            ≡ (ok, result_in_reg2 op c (add32 a b) (add_flags f a b)))
  unfolding op_exec_sub op_exec_subr op_exec_cmp_1 op_exec_add_1
  add_sub_effects h in1 in2 q p =
      let a = val2 op c in
      let b = val1 op c in
      (
        ground (arith, set_sub_flags-with_flags (write_reg c op.reg2 (sub32 a b)) f h a b p q),
        ground (arith, set_sub_flags-with_flags (write_reg c op.reg2 (sub32 b a)) f h b a q p),
        ground (arith, set_sub_flags-with_flags c f h a b p q),
        ground (arith, set_add_flags-with_flags (write_reg c op.reg2 (add32 a b)) f h a b),
      )
