-- ===== src/Cpu/Arith/Immediate/Effects.antt =====
-- What the additions and comparisons with an immediate leave.
use athrill_target_rh850f1x.Base.{ℕ, ◌+◌, ◌-◌, ◌%◌, ◌^◌, ◌<◌, ◌≡◌, arith, ap, if◌then◌else◌, ltb}
use athrill_target_rh850f1x.Cpu.State.{
  CpuRegister, ok, greg_num, read_reg, write_reg, advance, Word, OpCodeFormatType2,
  OpCodeFormatType6,
}
use athrill_target_rh850f1x.Cpu.Psw.Flags.{Flags, with_flags, Fits}
use athrill_target_rh850f1x.Cpu.Ops.{add32, op_addi}
use athrill_target_rh850f1x.Cpu.Ops.Bounds.{op_sign_extend_lem}
use athrill_target_rh850f1x.Cpu.Arith.Format1.{set_add_flags}
use athrill_target_rh850f1x.Cpu.Arith.Format1.Effects.{
  sub_flags, add_flags, set_sub_flags-with_flags, set_add_flags-with_flags,
}
use athrill_target_rh850f1x.Cpu.Arith.Immediate.{op_exec_cmp_2, op_exec_add_2, op_exec_addi}

-- An immediate of 5 and of 16 bits, read as signed, as a word.
abbrev pub imm5 : ℕ → ℕ
imm5 imm = if ltb imm 16 then imm else imm + 2 ^ 32 - 32

abbrev pub imm16 : ℕ → ℕ
imm16 imm = if ltb imm 0x8000 then imm else imm + 2 ^ 32 - 0x1_0000

imm5-lt : (imm : ℕ) → imm < 32 → Word (imm5 imm)
imm5-lt imm h = ground arith

op_addi-with_flags :
    (c : CpuRegister) (f : Flags) (i r : ℕ)
    → Fits f
    → op_addi (with_flags c f) i r ≡ (add32 r i, with_flags c (add_flags f i r))
unfolding op_addi set_add_flags
op_addi-with_flags c f i r h =
    let swap : add32 r i ≡ add32 i r = ap (λ k. k % 2 ^ 32) (omega arith) in
    rw swap (ap (λ s. (add32 i r, s)) (set_add_flags-with_flags c f h i r))

module _ (op : OpCodeFormatType2) (c : CpuRegister) (f : Flags) where
  -- With reg2 in range and a word in it, CMP of an immediate of five bits leaves the flags of
  -- reg2 less the signed immediate and no register, and ADD their sum in reg2 and its flags.
  pub add_cmp_imm_effects :
      Fits f
      → op.reg2 < greg_num
      → op.imm < 32
      → Word (read_reg c op.reg2)
      → let a = read_reg c op.reg2 in
        let b = imm5 op.imm in
        (op_exec_cmp_2 op (with_flags c f) ≡ (ok, advance 2 (with_flags c (sub_flags f a b))))
        × (op_exec_add_2 op (with_flags c f)
            ≡ (ok, advance 2 (with_flags (write_reg c op.reg2 (add32 a b)) (add_flags f a b))))
  unfolding op_exec_cmp_2 op_exec_add_2
  add_cmp_imm_effects h in2 small p =
      let a = read_reg c op.reg2 in
      let b = imm5 op.imm in
      let read = op_sign_extend_lem 4 op.imm (omega arith) (omega arith) in
      rw read (
        ground (arith, set_sub_flags-with_flags c f h a b p (imm5-lt op.imm small)),
        ground (arith, set_add_flags-with_flags (write_reg c op.reg2 (add32 a b)) f h a b),
      )

module _ (op : OpCodeFormatType6) (c : CpuRegister) (f : Flags) where
  -- With registers in range, ADDI leaves the sum of reg1 and the signed immediate of 16 bits in
  -- reg2, and its flags.
  pub addi_effects :
      Fits f
      → op.reg1 < greg_num
      → op.reg2 < greg_num
      → op.imm < 2 ^ 16
      → let a = read_reg c op.reg1 in
        let b = imm16 op.imm in
        op_exec_addi op (with_flags c f)
        ≡ (ok, advance 4 (with_flags (write_reg c op.reg2 (add32 a b)) (add_flags f b a)))
  unfolding op_exec_addi
  addi_effects h in1 in2 small =
      let read = op_sign_extend_lem 15 op.imm (omega arith) (omega arith) in
      rw read (ground (arith, op_addi-with_flags c f (imm16 op.imm) (read_reg c op.reg1) h))
