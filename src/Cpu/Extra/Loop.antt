-- ===== src/Cpu/Extra/Loop.antt =====
-- LOOP counts a register down and jumps back until it is 0.
use athrill_target_rh850f1x.Base.{
  ℕ, ◌+◌, ◌*◌, ◌%◌, ◌^◌, ◌<◌, ◌≡◌, refl, true, false, if◌then◌else◌, ltb, ◌==◌, pos, ◌+ℤ◌, arith,
  Bool-cases, inl, inr,
}
use native.Mathlib.Nat.{mod-eq_of_lt}
use athrill_target_rh850f1x.Cpu.State.{CpuRegister, ok, read_reg, write_reg, Word}
use athrill_target_rh850f1x.Dec.Format.{OpCodeFormatType7}
use athrill_target_rh850f1x.Cpu.Ops.{add32, sub32}
use athrill_target_rh850f1x.Cpu.Ops.Zero.{op_zero_extend_lem}
use athrill_target_rh850f1x.Cpu.Psw.{cpu_clr_cy, op_chk_and_set_carry}
use athrill_target_rh850f1x.Cpu.Psw.Flags.{Flags, Fits, with_flags}
use athrill_target_rh850f1x.Cpu.Psw.Laws.{clr_cy-with_flags}
use athrill_target_rh850f1x.Cpu.Psw.Checks.{
  is_negative, overflows, carry-with_flags, overflow-with_flags, zero-with_flags, sign-with_flags,
}
use athrill_target_rh850f1x.Cpu.Extra.{op_exec_loop_7}

-- The flags after LOOP counted `a` down: OV is always on, and CY is on but at 0 and at the end.
abbrev pub loop_flags : Flags → ℕ → Flags
loop_flags f a = record f {
  cy = ltb 1 a;
  ov = true;
  z = a == 1;
  s = is_negative (add32 a 0xffff_ffff);
}

ends : (a : ℕ) → Word a → (add32 a 0xffff_ffff == 0) ≡ (a == 1)
ends a h = ground arith

always_over : (a : ℕ) → overflows (pos a +ℤ pos 0xffff_ffff) ≡ true
unfolding ◌+ℤ◌
always_over a = ground arith

count_carry :
    (c : CpuRegister) (f : Flags) (a : ℕ)
    → Fits f
    → Word a
    → (if a == 1
        then cpu_clr_cy (with_flags c f)
        else op_chk_and_set_carry (with_flags c f) a 0xffff_ffff)
      ≡ with_flags c (record f { cy = ltb 1 a })
count_carry c f a h w = elim (Bool-cases (a == 1)) [
  | inl last ↦
      let off : ltb 1 a ≡ false = ground arith in rw (last, clr_cy-with_flags c f h, off) refl
  | inr more ↦
      let on : ltb 0xffff_ffff (a + 0xffff_ffff) ≡ ltb 1 a = ground arith in
      rw (more, carry-with_flags c f h a 0xffff_ffff, on) refl
]

-- With a displacement of 15 bits and a word in reg1, LOOP leaves reg1 less 1, round from 0; at 0 it
-- goes on behind the instruction, and else it goes back by twice the displacement. Z and S tell of
-- the new value, CY is on where the old one was at least 2, and OV is on always.
pub loop_effects :
    (op : OpCodeFormatType7) (c : CpuRegister) (f : Flags)
    → Fits f
    → op.disp < 2 ^ 15
    → Word (read_reg c op.reg1)
    → let a = read_reg c op.reg1 in
      let c' = write_reg (with_flags c (loop_flags f a)) op.reg1 (add32 a 0xffff_ffff) in
      op_exec_loop_7 op (with_flags c f)
      ≡ (ok, record c' { pc = if a == 1 then add32 c.pc 4 else sub32 c.pc (op.disp * 2) })
unfolding op_exec_loop_7
loop_effects op c f h small w =
    let a = read_reg c op.reg1 in
    let cut : op.disp * 2 % 2 ^ 32 ≡ op.disp * 2 = mod-eq_of_lt (omega arith) in
    let disp = op_zero_extend_lem 16 (op.disp * 2) (omega arith) (omega arith) in
    let f1 = record f { cy = ltb 1 a } in
    let f2 = record f1 { ov = true } in
    let f3 = record f2 { z = a == 1 } in
    rw
      (
        cut,
        disp,
        ends a w,
        count_carry c f a h w,
        overflow-with_flags c f1 h (pos a) (pos 0xffff_ffff),
        always_over a,
        zero-with_flags c f2 h (add32 a 0xffff_ffff),
        ends a w,
        sign-with_flags c f3 h (add32 a 0xffff_ffff),
      )
      refl
