-- ===== src/Cpu/Compare/Jump.antt =====
-- A comparison and the branch on it.
use athrill_target_rh850f1x.Base.{
  ℕ, ◌+◌, ◌-◌, ◌*◌, ◌%◌, ◌^◌, ◌<◌, ◌≡◌, arith, refl, ap, ◌∙◌, Bool, true, false, if◌then◌else◌, ltb,
}
use athrill_target_rh850f1x.Cpu.State.{
  CpuRegister, greg_num, Word, OpCodeFormatType1, OpCodeFormatType3,
}
use athrill_target_rh850f1x.Cpu.Psw.Flags.{Flags, with_flags, Fits}
use athrill_target_rh850f1x.Cpu.Ops.{add32}
use athrill_target_rh850f1x.Cpu.Ops.Extend.{op_sign_extend}
use athrill_target_rh850f1x.Cpu.Ops.Bounds.{op_sign_extend_lem}
use athrill_target_rh850f1x.Cpu.Cond.{op_exec_cond, op_exec_bcond, op_exec_bcond_3}
use athrill_target_rh850f1x.Cpu.Arith.Format1.{op_exec_cmp_1}
use athrill_target_rh850f1x.Cpu.Arith.Format1.Effects.{add_sub_effects, val1, val2}
use athrill_target_rh850f1x.Cpu.Compare.{Relation, code, means, cmp-cond}

-- The branch of a relation, with the field `d` for its displacement.
abbrev pub branch : Relation → ℕ → OpCodeFormatType3
branch rel d = record { opcode = 0xb; disp = d; cond = code rel }

-- The displacement of a branch, in halfwords of a sint8, as a word of bytes.
abbrev pub displacement : ℕ → ℕ
displacement d = if ltb d 128 then d * 2 else d * 2 + 2 ^ 32 - 512

displacement_lem : (d : ℕ) → d < 256 → op_sign_extend 8 (d * 2 % 2 ^ 32) ≡ displacement d
displacement_lem d h =
    let same : d * 2 % 2 ^ 32 ≡ d * 2 = omega arith in
    rw same (ground (arith, op_sign_extend_lem 8 (d * 2) (omega arith) (omega arith)))

bcond-pc :
    (rel : Relation) (d : ℕ) (c : CpuRegister) (taken : Bool)
    → d < 256
    → op_exec_cond c (code rel) ≡ taken
    → ((op_exec_bcond_3 (branch rel d) c).1.pc ≡ add32 c.pc (if taken then displacement d else 2))
      × ((op_exec_bcond_3 (branch rel d) c).1.r ≡ c.r)
      × ((op_exec_bcond_3 (branch rel d) c).1.psw ≡ c.psw)
unfolding op_exec_bcond_3 op_exec_bcond
bcond-pc rel d c true h e = rw (e, displacement_lem d h) (refl, refl, refl)
bcond-pc rel d c false h e = rw e (refl, refl, refl)

-- After CMP of two words in registers in range, the branch of a relation goes to its displacement
-- where the relation holds between reg2 and reg1, signed or unsigned, and past itself where it
-- does not; neither instruction changes a register.
pub cmp-bcond :
    (rel : Relation) (d : ℕ) (op : OpCodeFormatType1) (c : CpuRegister) (f : Flags)
    → d < 256
    → Fits f
    → op.reg1 < greg_num
    → op.reg2 < greg_num
    → Word (val1 op c)
    → Word (val2 op c)
    → let c' = (op_exec_bcond_3 (branch rel d) (op_exec_cmp_1 op (with_flags c f)).1).1 in
      let past = if means rel (val2 op c) (val1 op c) then 2 + displacement d else 4 in
      (c'.pc ≡ (c.pc + past) % 2 ^ 32) × (c'.r ≡ c.r)
cmp-bcond rel d op c f small fits in1 in2 p q =
    let done = add_sub_effects op c f fits in1 in2 p q in
    let c1 = (op_exec_cmp_1 op (with_flags c f)).1 in
    let taken = means rel (val2 op c) (val1 op c) in
    let went = bcond-pc rel d c1 taken small (cmp-cond rel op c f fits in1 in2 p q).0 in
    let pc1 : c1.pc ≡ (c.pc + 2) % 2 ^ 32 = ap (λ x. x.1.pc) (done.2) in
    let r1 : c1.r ≡ c.r = ap (λ x. x.1.r) (done.2) in
    (went.0 ∙ ap (λ k. add32 k (if taken then displacement d else 2)) pc1 ∙ sum taken, went.1 ∙ r1)
  where
    sum :
        (taken : Bool)
        → add32 ((c.pc + 2) % 2 ^ 32) (if taken then displacement d else 2)
          ≡ (c.pc + (if taken then 2 + displacement d else 4)) % 2 ^ 32
    sum true = omega arith
    sum false = omega arith
