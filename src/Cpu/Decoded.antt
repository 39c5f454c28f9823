-- ===== src/Cpu/Decoded.antt =====
-- The decoders cut register numbers to five bits, so that a decoded instruction passes the tests of
-- its register numbers: formats 1, 2 and 11 of src/cpu/cpu_dec/op_dec.c, and their operations in
-- src/cpu/cpu_exec.
mod Tests
use athrill_target_rh850f1x.Base.{ℕ, ◌+◌, ◌/◌, ◌%◌, ◌^◌, ◌<◌, ◌≡◌, ◌≢◌, List, [], ◌∷◌, arith}
use athrill_target_rh850f1x.Cpu.State.{
  CpuRegister, Status, failed, greg_num, OpCodeFormatType1, OpCodeFormatType2, OpCodeFormatType11,
}
use athrill_target_rh850f1x.Dec.Types.{Code, field}
use athrill_target_rh850f1x.Dec.Fields.{field_lem}
use athrill_target_rh850f1x.Dec.Format.{OpDecodedCode, format_1, format_2, format_11}
use athrill_target_rh850f1x.Dec.Decode.{op_decoder}
use athrill_target_rh850f1x.Cpu.Arith.Format1.{
  op_exec_sub, op_exec_subr, op_exec_cmp_1, op_exec_add_1, op_exec_mov_1, op_exec_mulh_1,
  op_exec_divh_1,
}
use athrill_target_rh850f1x.Cpu.Arith.Immediate.{
  op_exec_cmp_2, op_exec_add_2, op_exec_mov_2, op_exec_mulh_2,
}
use athrill_target_rh850f1x.Cpu.Arith.Mul.{op_exec_mul, op_exec_mulu}
use athrill_target_rh850f1x.Cpu.Arith.Div.{
  op_exec_divu, op_exec_divhu, op_exec_divqu_11, op_exec_divh_11, op_exec_div, op_exec_div_common,
}
use athrill_target_rh850f1x.Cpu.Logic.{
  op_exec_or, op_exec_and, op_exec_xor, op_exec_not, op_exec_tst,
}
use athrill_target_rh850f1x.Cpu.Sat.{op_exec_satadd_1, op_exec_satsub_1, op_exec_satsubr_1}

-- No operation of the list fails on the operands.
abbrev pub NoneFails :
    {Op : Type 0} → List (Op → CpuRegister → Status × CpuRegister) → Op → CpuRegister → Type 0
NoneFails [] t c = Unit
NoneFails (exec ∷ rest) t c = ((exec t c).0 ≢ failed) × NoneFails rest t c

abbrev pub reg_reg : List (OpCodeFormatType1 → CpuRegister → Status × CpuRegister)
reg_reg =
    op_exec_sub ∷ op_exec_subr ∷ op_exec_cmp_1 ∷ op_exec_add_1 ∷ op_exec_mov_1 ∷ op_exec_mulh_1
    ∷ op_exec_divh_1 ∷ op_exec_or ∷ op_exec_and ∷ op_exec_xor ∷ op_exec_not ∷ op_exec_tst
    ∷ op_exec_satadd_1 ∷ op_exec_satsub_1 ∷ op_exec_satsubr_1 ∷ []

abbrev pub imm_reg : List (OpCodeFormatType2 → CpuRegister → Status × CpuRegister)
imm_reg = op_exec_cmp_2 ∷ op_exec_add_2 ∷ op_exec_mov_2 ∷ op_exec_mulh_2 ∷ []

abbrev pub three_regs : List (OpCodeFormatType11 → CpuRegister → Status × CpuRegister)
three_regs =
    op_exec_mul ∷ op_exec_mulu ∷ op_exec_divu ∷ op_exec_divhu ∷ op_exec_divqu_11 ∷ op_exec_divh_11
    ∷ op_exec_div ∷ []

reg_reg-NoneFails :
    (t : OpCodeFormatType1) (c : CpuRegister)
    → t.reg1 < greg_num
    → t.reg2 < greg_num
    → NoneFails reg_reg t c
unfolding op_exec_sub op_exec_subr op_exec_cmp_1 op_exec_add_1 op_exec_mov_1 op_exec_mulh_1
    op_exec_divh_1 op_exec_or op_exec_and op_exec_xor op_exec_not op_exec_tst op_exec_satadd_1
    op_exec_satsub_1 op_exec_satsubr_1
reg_reg-NoneFails t c h1 h2 = (
  ground arith,
  (
    ground arith,
    (
      ground arith,
      (
        ground arith,
        (
          ground arith,
          (
            ground arith,
            (
              ground arith,
              (
                ground arith,
                (
                  ground arith,
                  (
                    ground arith,
                    (
                      ground arith,
                      (ground arith, (ground arith, (ground arith, (ground arith, tt)))),
                    ),
                  ),
                ),
              ),
            ),
          ),
        ),
      ),
    ),
  ),
)

imm_reg-NoneFails :
    (t : OpCodeFormatType2) (c : CpuRegister) → t.reg2 < greg_num → NoneFails imm_reg t c
unfolding op_exec_cmp_2 op_exec_add_2 op_exec_mov_2 op_exec_mulh_2
imm_reg-NoneFails t c h = (ground arith, (ground arith, (ground arith, (ground arith, tt))))

three_regs-NoneFails :
    (t : OpCodeFormatType11) (c : CpuRegister)
    → t.reg1 < greg_num
    → t.reg2 < greg_num
    → t.reg3 < greg_num
    → NoneFails three_regs t c
unfolding op_exec_mul op_exec_mulu op_exec_divu op_exec_divhu op_exec_divqu_11 op_exec_divh_11
    op_exec_div op_exec_div_common
three_regs-NoneFails t c h1 h2 h3 = (
  ground arith,
  (
    ground arith,
    (ground arith, (ground arith, (ground arith, (ground arith, (ground arith, tt))))),
  ),
)

-- Whatever the code words and the registers hold, no operation of the three lists fails on the
-- operands that the decoder of its format gives: the tests of the register numbers never hold.
pub decoded-NoneFails :
    (code : Code) (d : OpDecodedCode) (c : CpuRegister)
    → NoneFails reg_reg ((op_decoder format_1 code d).type1) c
      × NoneFails imm_reg ((op_decoder format_2 code d).type2) c
      × NoneFails three_regs ((op_decoder format_11 code d).type11) c
unfolding op_decoder
decoded-NoneFails code d c =
    let w = field_lem code.w0 in
    let t1 = (op_decoder format_1 code d).type1 in
    let t2 = (op_decoder format_2 code d).type2 in
    let t11 = (op_decoder format_11 code d).type11 in
    (
      reg_reg-NoneFails t1 c (omega (arith, w 0 5)) (omega (arith, w 11 5)),
      imm_reg-NoneFails t2 c (omega (arith, w 11 5)),
      three_regs-NoneFails t11 c (omega (arith, w 0 5)) (omega (arith, w 11 5))
          (omega (arith, field_lem (field code.w1 0 0xffff) 11 5)),
    )
