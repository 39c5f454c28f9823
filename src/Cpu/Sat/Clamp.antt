-- ===== src/Cpu/Sat/Clamp.antt =====
-- The saturating sum of op_satadd and the true sum, cut off at the ends of sint32.
use athrill_target_rh850f1x.Base.{
  ℕ, ◌+◌, ◌<◌, ◌≡◌, arith, ◌∙◌, Bool, ◌||◌, ◌&&◌, if◌then◌else◌, ltb, leb, ℤ, pos, negsuc, ◌+ℤ◌,
  neg_ℤ, ltb_ℤ, signed32, word32,
}
use athrill_target_rh850f1x.Cpu.State.{
  CpuRegister, ok, greg_num, read_reg, write_reg, advance, Word, OpCodeFormatType1,
}
use athrill_target_rh850f1x.Cpu.Psw.{cpu_set_s, cpu_clr_s, cpu_set_z, cpu_clr_z, cpu_isset_cy}
use athrill_target_rh850f1x.Cpu.Psw.Flags.{Flags, with_flags, Fits}
use athrill_target_rh850f1x.Cpu.Psw.Laws.{
  set_z-with_flags, set_s-with_flags, set_sat-with_flags, clr_z-with_flags, clr_s-with_flags,
  isset_cy-with_flags,
}
use athrill_target_rh850f1x.Cpu.Psw.Checks.{overflows, carry-with_flags, overflow-with_flags}
use athrill_target_rh850f1x.Cpu.Ops.{saturate, op_satadd, is_zero_ℤ}
use athrill_target_rh850f1x.Cpu.Sat.{op_exec_satadd_1, op_exec_satsub_1}

-- The nearest value of sint32.
abbrev pub clamp : ℤ → ℤ
clamp x =
    if ltb_ℤ (pos 2147483647) x
    then pos 2147483647
    else if ltb_ℤ x (negsuc 2147483647)
    then negsuc 2147483647
    else x

-- The flags after the saturating sum `x` of the words `a` and `b`: SAT stays on once it is set.
abbrev pub sat_flags : Flags → ℕ → ℕ → ℤ → Flags
sat_flags f a b x = record f {
  cy = ltb 0xffff_ffff (a + b);
  ov = overflows x;
  sat = overflows x || f.sat;
  s = ltb_ℤ x (pos 0);
  z = is_zero_ℤ x;
}

saturate-with_flags :
    (c : CpuRegister) (f : Flags) (x : ℤ)
    → saturate (with_flags c f) x
      ≡ (word32 (clamp x), with_flags c (record f { sat = overflows x || f.sat }))
unfolding saturate
saturate-with_flags c f x = ground (arith, set_sat-with_flags c f)

clamp_word : (x : ℤ) → signed32 (word32 (clamp x)) ≡ clamp x
clamp_word x = ground arith

module _ (c : CpuRegister) (f : Flags) (h : Fits f) where
  sign_step :
      (b : Bool)
      → (if b then cpu_set_s (with_flags c f) else cpu_clr_s (with_flags c f))
        ≡ with_flags c (record f { s = b })
  sign_step b = ground (arith, set_s-with_flags c f, clr_s-with_flags c f h)

  zero_step :
      (b : Bool)
      → (if b then cpu_set_z (with_flags c f) else cpu_clr_z (with_flags c f))
        ≡ with_flags c (record f { z = b })
  zero_step b = ground (arith, set_z-with_flags c f, clr_z-with_flags c f h)

op_satadd_lem :
    (c : CpuRegister) (f : Flags) (l : ℕ) (r : ℤ)
    → Fits f
    → let x = signed32 l +ℤ r in
      op_satadd (with_flags c f) l r ≡ (word32 (clamp x), with_flags c (sat_flags f l (word32 r) x))
unfolding op_satadd
op_satadd_lem c f l r h =
    let x = signed32 l +ℤ r in
    let f1 = record f { cy = ltb 0xffff_ffff (l + word32 r) } in
    let f2 = record f1 { ov = overflows x } in
    let f3 = record f2 { sat = overflows x || f.sat } in
    let f4 = record f3 { s = ltb_ℤ x (pos 0) } in
    rw (
      carry-with_flags c f h l (word32 r),
      overflow-with_flags c f1 h (signed32 l) r,
      saturate-with_flags c f2 x,
      sign_step c f3 h (ltb_ℤ x (pos 0)),
      zero_step c f4 h (is_zero_ℤ x),
    )

negated_carry :
    (a b : ℕ)
    → Word a
    → Word b
    → ltb 0xffff_ffff (a + word32 (neg_ℤ (signed32 b))) ≡ (leb b a && ltb 0 b)
unfolding neg_ℤ
negated_carry a b p q = ground arith

module _ (op : OpCodeFormatType1) (c : CpuRegister) (f : Flags) where
  -- With registers in range, SATADD and SATSUB leave in reg2 the true sum and difference, cut off at the ends of sint32;
  -- SAT is set where it was cut off and stays on, OV is set exactly there, S and Z are those of
  -- the true value. CY is that of the unsigned sum with reg1, in SATSUB with its negation.
  pub saturating_effects :
      Fits f
      → op.reg1 < greg_num
      → op.reg2 < greg_num
      → let a = read_reg c op.reg2 in
        let b = read_reg c op.reg1 in
        let x = signed32 a +ℤ signed32 b in
        let y = signed32 a +ℤ neg_ℤ (signed32 b) in
        (op_exec_satadd_1 op (with_flags c f) ≡ (
          ok,
          advance 2 (
              with_flags
                (write_reg c op.reg2 (word32 (clamp x)))
                (sat_flags f a (word32 (signed32 b)) x)),
        ))
        × (op_exec_satsub_1 op (with_flags c f) ≡ (
          ok,
          advance 2 (
              with_flags
                (write_reg c op.reg2 (word32 (clamp y)))
                (sat_flags f a (word32 (neg_ℤ (signed32 b))) y)),
        ))
        × (signed32 (word32 (clamp x)) ≡ clamp x)
        × (signed32 (word32 (clamp y)) ≡ clamp y)
  unfolding op_exec_satadd_1 op_exec_satsub_1
  saturating_effects h in1 in2 =
      let a = read_reg c op.reg2 in
      let b = read_reg c op.reg1 in
      (
        ground (arith, op_satadd_lem c f a (signed32 b) h),
        ground (arith, op_satadd_lem c f a (neg_ℤ (signed32 b)) h),
        clamp_word (signed32 a +ℤ signed32 b),
        clamp_word (signed32 a +ℤ neg_ℤ (signed32 b)),
      )

  -- After SATSUB of words CY is set exactly where the subtraction has no borrow and subtracts
  -- something: the other way round than SUB leaves it, but at a zero reg1.
  pub satsub-cy :
      Fits f
      → op.reg1 < greg_num
      → op.reg2 < greg_num
      → Word (read_reg c op.reg1)
      → Word (read_reg c op.reg2)
      → cpu_isset_cy (op_exec_satsub_1 op (with_flags c f)).1
        ≡ (leb (read_reg c op.reg1) (read_reg c op.reg2) && ltb 0 (read_reg c op.reg1))
  satsub-cy h in1 in2 p q =
      let y = signed32 (read_reg c op.reg2) +ℤ neg_ℤ (signed32 (read_reg c op.reg1)) in
      rw ((saturating_effects h in1 in2).1) (
        isset_cy-with_flags (advance 2 (write_reg c op.reg2 (word32 (clamp y))))
          (sat_flags f (read_reg c op.reg2) (word32 (neg_ℤ (signed32 (read_reg c op.reg1)))) y)
        ∙ negated_carry (read_reg c op.reg2) (read_reg c op.reg1) q p)
