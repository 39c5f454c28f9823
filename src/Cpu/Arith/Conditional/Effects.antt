-- ===== src/Cpu/Arith/Conditional/Effects.antt =====
-- What the additions and subtractions with a condition leave.
use athrill_target_rh850f1x.Base.{
  ℕ, ◌+◌, ◌<◌, ◌≤◌, ◌≡◌, arith, Bool, if◌then◌else◌, ltb, ◌==◌, pos, ◌+ℤ◌, neg_ℤ, signed32,
}
use athrill_target_rh850f1x.Cpu.State.{
  CpuRegister, ok, greg_num, read_reg, write_reg, advance, Word, OpCodeFormatType11,
}
use athrill_target_rh850f1x.Cpu.Psw.{
  op_chk_and_set_carry3, op_chk_and_set_borrow3, op_chk_and_set_overflow3, op_chk_and_set_zero,
  op_chk_and_set_sign,
}
use athrill_target_rh850f1x.Cpu.Psw.Flags.{Flags, with_flags, Fits}
use athrill_target_rh850f1x.Cpu.Psw.Checks.{
  overflows, is_negative, carry3-with_flags, borrow3-with_flags, overflow3-with_flags,
  zero-with_flags, sign-with_flags,
}
use athrill_target_rh850f1x.Cpu.Ops.{add32, sub32}
use athrill_target_rh850f1x.Cpu.Cond.{op_exec_cond}
use athrill_target_rh850f1x.Cpu.Arith.Conditional.{op_exec_adf_11, op_exec_sbf_11, cond_11}

-- The flags after a + b + d and after a - b - d.
abbrev pub adf_flags : Flags → ℕ → ℕ → ℕ → Flags
adf_flags f a b d = record f {
  cy = ltb 0xffff_ffff (a + b + d);
  ov = overflows (signed32 a +ℤ signed32 b +ℤ pos d);
  z = add32 (add32 a b) d == 0;
  s = is_negative (add32 (add32 a b) d);
}

abbrev pub sbf_flags : Flags → ℕ → ℕ → ℕ → Flags
sbf_flags f a b d = record f {
  cy = ltb a (b + d);
  ov = overflows (signed32 a +ℤ neg_ℤ (signed32 b) +ℤ neg_ℤ (pos d));
  z = sub32 (sub32 a b) d == 0;
  s = is_negative (sub32 (sub32 a b) d);
}

module _ (c : CpuRegister) (f : Flags) (h : Fits f) (a b d : ℕ) where
  adf_chain :
      let v = add32 (add32 a b) d in
      let c1 = op_chk_and_set_carry3 (with_flags c f) a b d in
      let c2 = op_chk_and_set_overflow3 c1 (signed32 a) (signed32 b) (pos d) in
      op_chk_and_set_sign (op_chk_and_set_zero c2 v) v ≡ with_flags c (adf_flags f a b d)
  adf_chain =
      let v = add32 (add32 a b) d in
      let f1 = record f { cy = ltb 0xffff_ffff (a + b + d) } in
      let f2 = record f1 { ov = overflows (signed32 a +ℤ signed32 b +ℤ pos d) } in
      rw
        (
          carry3-with_flags c f h a b d,
          overflow3-with_flags c f1 h (signed32 a) (signed32 b) (pos d),
          zero-with_flags c f2 h v,
        )
        (sign-with_flags c (record f2 { z = v == 0 }) h v)

  sbf_chain :
      Word a
      → Word b
      → d ≤ 1
      → let v = sub32 (sub32 a b) d in
        let c1 = op_chk_and_set_borrow3 (with_flags c f) a b d in
        let c2 = op_chk_and_set_overflow3 c1 (signed32 a) (neg_ℤ (signed32 b)) (neg_ℤ (pos d)) in
        op_chk_and_set_sign (op_chk_and_set_zero c2 v) v ≡ with_flags c (sbf_flags f a b d)
  sbf_chain p q e =
      let v = sub32 (sub32 a b) d in
      let f1 = record f { cy = ltb a (b + d) } in
      let f2 = record f1 { ov = overflows (signed32 a +ℤ neg_ℤ (signed32 b) +ℤ neg_ℤ (pos d)) } in
      rw
        (
          borrow3-with_flags c f h a b d p q e,
          overflow3-with_flags c f1 h (signed32 a) (neg_ℤ (signed32 b)) (neg_ℤ (pos d)),
          zero-with_flags c f2 h v,
        )
        (sign-with_flags c (record f2 { z = v == 0 }) h v)

one_if_le : (b : Bool) → (if b then 1 else 0) ≤ 1
one_if_le b = ground arith

module _ (op : OpCodeFormatType11) (c : CpuRegister) (f : Flags) where
  abbrev a : ℕ
  a = read_reg c op.reg2

  abbrev b : ℕ
  b = read_reg c op.reg1

  -- One where the condition of the operation holds.
  abbrev pub add_data : ℕ
  add_data = if op_exec_cond (with_flags c f) (cond_11 op) then 1 else 0

  -- On words, with registers in range, ADF leaves reg2 + reg1 in reg3, and SBF reg2 - reg1, with one more added or
  -- subtracted where the condition holds; CY, OV, Z and S are those of the three operands
  -- together, the rest of the status word stays, and the operation goes on by 4.
  pub adf_sbf_effects :
      Fits f
      → op.reg1 < greg_num
      → op.reg2 < greg_num
      → op.reg3 < greg_num
      → Word a
      → Word b
      → (op_exec_adf_11 op (with_flags c f) ≡ (
        ok,
        advance 4 (
            with_flags
              (write_reg c op.reg3 (add32 (add32 a b) add_data))
              (adf_flags f a b add_data)),
      ))
        × (op_exec_sbf_11 op (with_flags c f) ≡ (
          ok,
          advance 4 (
              with_flags
                (write_reg c op.reg3 (sub32 (sub32 a b) add_data))
                (sbf_flags f a b add_data)),
        ))
  unfolding op_exec_adf_11 op_exec_sbf_11
  adf_sbf_effects h in1 in2 in3 p q = (
    ground (arith, adf_chain (write_reg c op.reg3 (add32 (add32 a b) add_data)) f h a b add_data),
    ground (
      arith,
      sbf_chain (write_reg c op.reg3 (sub32 (sub32 a b) add_data)) f h a b add_data p q
          (one_if_le _),
    ),
  )
