-- ===== src/Cpu/Tests.antt =====
-- Runs of the theorems about the instructions on one state.
use athrill_target_rh850f1x.Base.{
  ℕ, ◌+◌, ◌*◌, ◌^◌, ◌<◌, ◌≡◌, ◌≢◌, arith, refl, Bool, true, false, not, List, [], ◌∷◌, set, pos,
  negsuc, ◌+ℤ◌, ◌*ℤ◌, neg_ℤ, quot_ℤ, signed32, word32,
}
use athrill_target_rh850f1x.Cpu.State.{
  CpuRegister, Status, ok, fault, read_reg, write_reg, advance, OpCodeFormatType1,
  OpCodeFormatType9, OpCodeFormatType11, OpCodeFormatType12,
}
use athrill_target_rh850f1x.Cpu.Psw.Flags.{Flags, with_flags, encode}
use athrill_target_rh850f1x.Cpu.Cond.{op_exec_cond, setf_chk_cond}
use athrill_target_rh850f1x.Cpu.Compare.{code, means, setf_chk_cond-op_exec_cond, cmp-cond}
use athrill_target_rh850f1x.Cpu.Compare
use athrill_target_rh850f1x.Cpu.Arith.Format1.{
  op_exec_sub, op_exec_subr, op_exec_cmp_1, op_exec_add_1,
}
use athrill_target_rh850f1x.Cpu.Arith.Format1.Effects.{
  add_sub_effects, sub_flags, add_flags, result_in_reg2,
}
use athrill_target_rh850f1x.Cpu.Arith.Div.{op_exec_divu, op_exec_div}
use athrill_target_rh850f1x.Cpu.Arith.Div.Faults.{div_faults}
use athrill_target_rh850f1x.Cpu.Arith.Div.Quotient.{divu-quotient}
use athrill_target_rh850f1x.Cpu.Arith.Div.Signed.{div-quotient}
use athrill_target_rh850f1x.Cpu.Arith.Mul.{op_exec_mul, op_exec_mulu}
use athrill_target_rh850f1x.Cpu.Arith.Mul.Product.{mulu-product, mul-product, signed64}
use athrill_target_rh850f1x.Cpu.Sat.{op_exec_satadd_1, op_exec_satsub_1}
use athrill_target_rh850f1x.Cpu.Sat.Clamp.{saturating_effects, clamp, sat_flags}
use athrill_target_rh850f1x.Cpu.Shift.{
  op_exec_shl_9, op_exec_shr_9, op_exec_sar_9, op_exec_sar_11, sar32,
}
use athrill_target_rh850f1x.Cpu.Shift.Carry.{shift_effects, sar_11_logical, shift_flags}
use athrill_target_rh850f1x.Cpu.Swap.{op_exec_hsw_12, op_exec_bsh_12, op_exec_bsw_12}
use athrill_target_rh850f1x.Cpu.Swap.Order.{swap_orders}
use athrill_target_rh850f1x.Cpu.Psw.{isset_mask}
use athrill_target_rh850f1x.Cpu.Arith.Conditional.{op_exec_adf_11, op_exec_sbf_11}
use athrill_target_rh850f1x.Cpu.Arith.Conditional.Effects.{adf_sbf_effects, adf_flags, sbf_flags}

-- r1 = -7, r2 = 0x80000005, r3 = 3
abbrev pub regs : List ℕ
regs =
    0 ∷ 0xffff_fff9 ∷ 0x8000_0005 ∷ 3 ∷ 0 ∷ 0 ∷ 0 ∷ 0 ∷ 0 ∷ 0 ∷ 0 ∷ 0 ∷ 0 ∷ 0 ∷ 0 ∷ 0 ∷ 0 ∷ 0 ∷ 0
    ∷ 0 ∷ 0 ∷ 0 ∷ 0 ∷ 0 ∷ 0 ∷ 0 ∷ 0 ∷ 0 ∷ 0 ∷ 0 ∷ 0 ∷ 0 ∷ []

abbrev pub flags : Flags
flags = record { z = false; s = true; ov = true; cy = false; sat = false; rest = 1 }

abbrev pub core : CpuRegister
core = record { pc = 0x100; r = regs; psw = 32 }

abbrev pub one_two : OpCodeFormatType1
one_two = record { opcode = 0xe; reg1 = 1; reg2 = 2 }

abbrev one_far : OpCodeFormatType1
one_far = record { opcode = 0xe; reg1 = 1; reg2 = 32 }

abbrev pub three_two : OpCodeFormatType9
three_two = record { opcode = 0x3f; sub = 0x1b; gen = 3; reg2 = 2; rfu2 = 0; rfu1 = 0 }

abbrev three_two_four : OpCodeFormatType11
three_two_four = record {
  opcode = 0x3f;
  reg1 = 3;
  reg2 = 2;
  reg3 = 4;
  sub1 = 0x1d;
  sub2 = 0;
  rfu = 0;
}

abbrev two_four : OpCodeFormatType12
two_four = record { opcode = 0x3f; imml = 0; immh = 0; reg2 = 2; reg3 = 4; sub1 = 6; sub2 = 0 }

-- The condition is CY.
abbrev add_if_carry : OpCodeFormatType11
add_if_carry = record {
  opcode = 0x3f;
  reg1 = 3;
  reg2 = 2;
  reg3 = 4;
  sub1 = 0x1d;
  sub2 = 1;
  rfu = 0;
}

add_sub_effects_example :
    (op_exec_sub one_two (with_flags core flags)
      ≡ (ok, result_in_reg2 one_two core 0x8000_000c (sub_flags flags 0x8000_0005 0xffff_fff9)))
    × (op_exec_subr one_two (with_flags core flags)
        ≡ (ok, result_in_reg2 one_two core 0x7fff_fff4 (sub_flags flags 0xffff_fff9 0x8000_0005)))
    × (op_exec_cmp_1 one_two (with_flags core flags)
        ≡ (ok, advance 2 (with_flags core (sub_flags flags 0x8000_0005 0xffff_fff9))))
    × (op_exec_add_1 one_two (with_flags core flags)
        ≡ (ok, result_in_reg2 one_two core 0x7fff_fffe (add_flags flags 0x8000_0005 0xffff_fff9)))
add_sub_effects_example =
    add_sub_effects one_two core flags (omega arith) (omega arith) (omega arith) (omega arith)
      (omega arith)

setf_chk_cond-op_exec_cond_example :
    setf_chk_cond (with_flags core flags) 0b1101 ≡ not (op_exec_cond (with_flags core flags) 0b1101)
setf_chk_cond-op_exec_cond_example = setf_chk_cond-op_exec_cond core flags 0b1101 (omega arith)

cmp-cond_example :
    let c' = (op_exec_cmp_1 one_two (with_flags core flags)).1 in
    (op_exec_cond c' (code Compare.lt) ≡ true) × (setf_chk_cond c' (code Compare.lt) ≡ true)
cmp-cond_example =
    cmp-cond Compare.lt one_two core flags (omega arith) (omega arith) (omega arith) (omega arith)
      (omega arith)

divu-quotient_example :
    let c' = (op_exec_divu three_two_four core).1 in
    (read_reg c' 2 * 3 + read_reg c' 4 ≡ 0x8000_0005) × (read_reg c' 4 < 3)
divu-quotient_example =
    divu-quotient three_two_four core (omega arith, omega arith, omega arith) refl (omega arith)
      (omega arith)

div-quotient_example :
    let c' = (op_exec_div three_two_four core).1 in
    (signed32 (read_reg c' 2) *ℤ pos 3 +ℤ signed32 (read_reg c' 4) ≡ signed32 0x8000_0005)
    × (signed32 (read_reg c' 2) ≡ quot_ℤ (signed32 0x8000_0005) (pos 3))
div-quotient_example =
    div-quotient three_two_four core (omega arith, omega arith, omega arith) refl (omega arith)
      (omega arith) (omega arith) (omega arith) no_fault
  where
    no_fault : (op_exec_div three_two_four core).0 ≢ fault
    no_fault e =
        let w = (div_faults three_two_four core (omega arith, omega arith, omega arith)).5.0 e in
        omega (arith, w.0)

mulu-product_example :
    let c' = (op_exec_mulu three_two_four core).1 in
    read_reg c' 4 * 2 ^ 32 + read_reg c' 2 ≡ 3 * 0x8000_0005
mulu-product_example =
    mulu-product three_two_four core ((omega arith, omega arith, omega arith), refl, omega arith)
      (omega arith) (omega arith)

mul-product_example :
    let c' = (op_exec_mul three_two_four core).1 in
    signed64 (read_reg c' 4) (read_reg c' 2) ≡ pos 3 *ℤ signed32 0x8000_0005
mul-product_example =
    mul-product three_two_four core ((omega arith, omega arith, omega arith), refl, omega arith)
      (omega arith) (omega arith)

sar_11_logical_example :
    let c' = (op_exec_sar_11 three_two_four core).1 in
    (read_reg c' 4 ≡ 0x1000_0000) × (read_reg c' 4 ≢ sar32 0x8000_0005 3)
sar_11_logical_example =
    sar_11_logical three_two_four core (omega arith) (omega arith) (omega arith) refl (omega arith)
      (omega arith) (omega arith)

swap_orders_example :
    ((op_exec_hsw_12 two_four core).1.r ≡ set regs 4 0x0005_8000)
    × ((op_exec_bsh_12 two_four core).1.r ≡ set regs 4 0x0080_0500)
    × ((op_exec_bsw_12 two_four core).1.r ≡ set regs 4 0x0500_0080)
swap_orders_example = swap_orders two_four core (omega arith)

shift_effects_example :
    let done : Bool → ℕ → Status × CpuRegister =
      λ out v. (ok, advance 4 (with_flags (write_reg core 2 v) (shift_flags flags out v))) in
    (op_exec_shl_9 three_two (with_flags core flags) ≡ done false 40)
    × (op_exec_shr_9 three_two (with_flags core flags) ≡ done true 0x1000_0000)
    × (op_exec_sar_9 three_two (with_flags core flags) ≡ done true 0xf000_0000)
    × (signed32 0xf000_0000 ≡ negsuc 0x0fff_ffff)
shift_effects_example =
    shift_effects three_two core flags (omega arith) (omega arith) (omega arith) refl (omega arith)

saturating_effects_example :
    let sum = signed32 0x8000_0005 +ℤ signed32 0xffff_fff9 in
    let difference = signed32 0x8000_0005 +ℤ neg_ℤ (signed32 0xffff_fff9) in
    (op_exec_satadd_1 one_two (with_flags core flags) ≡ (
      ok,
      advance 2 (
          with_flags
            (write_reg core 2 0x8000_0000)
            (sat_flags flags 0x8000_0005 (word32 (signed32 0xffff_fff9)) sum)),
    ))
    × (op_exec_satsub_1 one_two (with_flags core flags) ≡ (
      ok,
      advance 2 (
          with_flags
            (write_reg core 2 0x8000_000c)
            (sat_flags flags 0x8000_0005 (word32 (neg_ℤ (signed32 0xffff_fff9))) difference)),
    ))
    × (signed32 0x8000_0000 ≡ clamp sum)
    × (signed32 0x8000_000c ≡ clamp difference)
unfolding ◌+ℤ◌ neg_ℤ
saturating_effects_example =
    saturating_effects one_two core flags (omega arith) (omega arith) (omega arith)

adf_sbf_effects_example :
    (op_exec_adf_11 add_if_carry (with_flags core flags) ≡ (
      ok,
      advance 4 (with_flags (write_reg core 4 0x8000_0008) (adf_flags flags 0x8000_0005 3 0)),
    ))
    × (op_exec_sbf_11 add_if_carry (with_flags core flags) ≡ (
      ok,
      advance 4 (with_flags (write_reg core 4 0x8000_0002) (sbf_flags flags 0x8000_0005 3 0)),
    ))
unfolding op_exec_cond isset_mask encode
adf_sbf_effects_example =
    adf_sbf_effects add_if_carry core flags (omega arith) (omega arith) (omega arith) (omega arith)
      (omega arith) (omega arith)
