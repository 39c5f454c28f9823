-- ===== src/Cpu/Bit/Effects.antt =====
-- What the search instructions leave.
use athrill_target_rh850f1x.Base.{
  ℕ, ◌+◌, ◌-◌, ◌/◌, ◌%◌, ◌^◌, ◌<◌, ◌≤◌, ◌≡◌, ◌≢◌, arith, refl, sym, ◌∙◌, ap, Bool, true, false,
  if◌then◌else◌, ◌==◌, length, get_or-set_self,
}
use athrill_target_rh850f1x.Cpu.State.{
  CpuRegister, ok, greg_num, read_reg, write_reg, advance, Word, OpCodeFormatType9,
}
use athrill_target_rh850f1x.Cpu.Psw.{set_mask, clr_mask}
use athrill_target_rh850f1x.Cpu.Psw.Flags.{Flags, with_flags, Fits}
use athrill_target_rh850f1x.Cpu.Psw.Laws.{
  set_cy-with_flags, clr_ov-with_flags, clr_s-with_flags, set_z-with_flags, clr_z-with_flags,
}
use athrill_target_rh850f1x.Cpu.Bit.{
  search_loop, op_exec_schlr_9, op_exec_sch1l_9, op_exec_sch1r_9, op_exec_sch0l_9, op_exec_sch0r_9,
}
use athrill_target_rh850f1x.Cpu.Bit.Search.{left_finds, right_finds, complement}

-- The number that a search leaves.
abbrev pub number : Bool → Bool → ℕ → ℕ
number v left w = let (found, count) = search_loop 32 0 0 w v left in if found then count + 1 else 0

module _ (op : OpCodeFormatType9) (c : CpuRegister) where
  abbrev w : ℕ
  w = read_reg c op.reg2

  schlr-number :
      (v left : Bool)
      → length c.r ≡ greg_num
      → op.rfu2 < greg_num
      → read_reg (op_exec_schlr_9 v left op c).1 op.rfu2 ≡ number v left w
  unfolding op_exec_schlr_9 set_mask clr_mask
  schlr-number v left regs out =
      ground (arith, get_or-set_self c.r op.rfu2 (number v left w) 0 (omega (arith, regs, out)))

  -- Of a word that is not 0, SCH1L leaves the place of the first 1 from the left, counted from 1,
  -- and SCH1R that of the first from the right.
  pub sch1_finds :
      length c.r ≡ greg_num
      → op.rfu2 < greg_num
      → Word w
      → w ≢ 0
      → let l = read_reg (op_exec_sch1l_9 op c).1 op.rfu2 in
        let r = read_reg (op_exec_sch1r_9 op c).1 op.rfu2 in
        (0 < l) × (l ≤ 32) × (w / 2 ^ (32 - l) ≡ 1) × (0 < r) × (r ≤ 32) × (w % 2 ^ r ≡ 2 ^ (r - 1))
  unfolding op_exec_sch1l_9 op_exec_sch1r_9
  sch1_finds regs out word some_bit =
      let (found_l, in_l, at_l) = left_finds 32 0 w refl word (omega (arith, some_bit)) in
      let (found_r, in_r, at_r) =
        right_finds 32 0 w refl (omega arith) (omega (arith, some_bit)) word in
      let lk = (search_loop 32 0 0 w true true).1 in
      let rk = (search_loop 32 0 0 w true false).1 in
      let left_place : 32 - (lk + 1) ≡ 31 - lk = omega arith in
      let right_place : rk + 1 - 1 ≡ rk = omega arith in
      rw (schlr-number true true regs out, schlr-number true false regs out, found_l, found_r)
        (
          omega arith,
          omega (arith, in_l),
          rw left_place at_l,
          omega arith,
          omega (arith, in_r),
          rw right_place at_r,
        )

module _ (op : OpCodeFormatType9) (c d : CpuRegister) where
  -- A search for a 0 leaves what the search for a 1 leaves where reg2 has the complement.
  pub sch0_complement :
      length c.r ≡ greg_num
      → length d.r ≡ greg_num
      → op.rfu2 < greg_num
      → Word (read_reg c op.reg2)
      → read_reg d op.reg2 ≡ 2 ^ 32 - 1 - read_reg c op.reg2
      → (read_reg (op_exec_sch0l_9 op c).1 op.rfu2 ≡ read_reg (op_exec_sch1l_9 op d).1 op.rfu2)
        × (read_reg (op_exec_sch0r_9 op c).1 op.rfu2 ≡ read_reg (op_exec_sch1r_9 op d).1 op.rfu2)
  unfolding op_exec_sch0l_9 op_exec_sch0r_9 op_exec_sch1l_9 op_exec_sch1r_9
  sch0_complement regs regs_d out word other = (same true, same false)
    where
      same :
          (left : Bool)
          → read_reg (op_exec_schlr_9 false left op c).1 op.rfu2
            ≡ read_reg (op_exec_schlr_9 true left op d).1 op.rfu2
      same left =
          schlr-number op c false left regs out
          ∙ (ap (λ p. if p.0 then p.1 + 1 else 0)
                (complement 32 0 0 (read_reg c op.reg2) left word refl)
              ∙ sym (schlr-number op d true left regs_d out ∙ ap (number true left) other))

module _ (op : OpCodeFormatType9) (c : CpuRegister) (f : Flags) where
  -- Each search sets CY whether it finds its bit or not; OV and S are off, Z says that it found
  -- none, the rest of the status word stays, and the search goes on by 4.
  pub sch_effects :
      (v left : Bool)
      → Fits f
      → op_exec_schlr_9 v left op (with_flags c f) ≡ (
        ok,
        advance 4 (
            with_flags (write_reg c op.rfu2 (number v left (read_reg c op.reg2))) (record f {
              cy = true;
              ov = false;
              s = false;
              z = number v left (read_reg c op.reg2) == 0;
            })),
      )
  unfolding op_exec_schlr_9
  sch_effects v left h =
      let f1 = record f { cy = true } in
      let f2 = record f1 { ov = false } in
      let f3 = record f2 { s = false } in
      ground (
        arith,
        set_cy-with_flags c f,
        clr_ov-with_flags c f1 h,
        clr_s-with_flags c f2 h,
        set_z-with_flags c f3,
        clr_z-with_flags c f3 h,
      )
