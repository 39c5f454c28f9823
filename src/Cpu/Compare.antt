-- ===== src/Cpu/Compare.antt =====
-- A comparison and the conditions that are read after it.
pub mod Jump
mod Tests
use athrill_target_rh850f1x.Base.{
  ℕ, ◌<◌, ◌≡◌, arith, each_below, refl, ◌∙◌, Bool, not, ◌||◌, if◌then◌else◌, ltb, leb, ◌==◌, ◌+ℤ◌,
  neg_ℤ, ltb_ℤ, signed32, ◌≢◌,
}
use athrill_target_rh850f1x.Cpu.State.{CpuRegister, Word, OpCodeFormatType1, greg_num, advance}
use athrill_target_rh850f1x.Cpu.Psw.Flags.{Flags, with_flags, Fits}
use athrill_target_rh850f1x.Cpu.Psw.Laws.{reads}
use athrill_target_rh850f1x.Cpu.Ops.{sub32}
use athrill_target_rh850f1x.Cpu.Cond.{xor_flag, op_exec_cond, setf_chk_cond}
use athrill_target_rh850f1x.Cpu.Arith.Format1.{op_exec_cmp_1}
use athrill_target_rh850f1x.Cpu.Arith.Format1.Effects.{sub_flags, add_sub_effects, val1, val2}

-- The conditions that compare: signed, unsigned, and equality.
pub data Relation : Type 0 where
  ge gt le lt h l nh nl e ne : Relation

-- Its four bits in the instruction.
abbrev pub code : Relation → ℕ
code ge = 0b1110
code gt = 0b1111
code le = 0b0111
code lt = 0b0110
code h = 0b1011
code l = 0b0001
code nh = 0b0011
code nl = 0b1001
code e = 0b0010
code ne = 0b1010

-- What it means for two words.
abbrev pub means : Relation → ℕ → ℕ → Bool
means ge a b = not (ltb_ℤ (signed32 a) (signed32 b))
means gt a b = ltb_ℤ (signed32 b) (signed32 a)
means le a b = not (ltb_ℤ (signed32 b) (signed32 a))
means lt a b = ltb_ℤ (signed32 a) (signed32 b)
means h a b = ltb b a
means l a b = ltb a b
means nh a b = leb a b
means nl a b = leb b a
means e a b = a == b
means ne a b = not (a == b)

-- What it reads of the flags.
abbrev reads_as : Relation → Flags → Bool
reads_as ge f = not (xor_flag f.s f.ov)
reads_as gt f = not (xor_flag f.s f.ov || f.z)
reads_as le f = xor_flag f.s f.ov || f.z
reads_as lt f = xor_flag f.s f.ov
reads_as h f = not (f.cy || f.z)
reads_as l f = f.cy
reads_as nh f = f.cy || f.z
reads_as nl f = not f.cy
reads_as e f = f.z
reads_as ne f = not f.z

-- S xor OV after a subtraction is the signed order of its operands.
signed_order :
    (f : Flags) (a b : ℕ)
    → Word a
    → Word b
    → let g = sub_flags f a b in xor_flag g.s g.ov ≡ ltb_ℤ (signed32 a) (signed32 b)
unfolding ◌+ℤ◌ neg_ℤ
signed_order f a b p q = ground arith

zero_order : (a b : ℕ) → Word a → Word b → (sub32 a b == 0) ≡ (a == b)
zero_order a b p q = ground arith

reads_as-means :
    (rel : Relation) (f : Flags) (a b : ℕ)
    → Word a
    → Word b
    → reads_as rel (sub_flags f a b) ≡ means rel a b
reads_as-means ge f a b p q = rw (signed_order f a b p q)
reads_as-means gt f a b p q = rw (signed_order f a b p q, zero_order a b p q) (ground arith)
reads_as-means le f a b p q = rw (signed_order f a b p q, zero_order a b p q) (ground arith)
reads_as-means lt f a b p q = signed_order f a b p q
reads_as-means h f a b p q = rw (zero_order a b p q) (ground arith)
reads_as-means l f a b p q = refl
reads_as-means nh f a b p q = rw (zero_order a b p q) (ground arith)
reads_as-means nl f a b p q = ground arith
reads_as-means e f a b p q = zero_order a b p q
reads_as-means ne f a b p q = rw (zero_order a b p q)

op_exec_cond-code :
    (rel : Relation) (c : CpuRegister) (f : Flags)
    → op_exec_cond (with_flags c f) (code rel) ≡ reads_as rel f
unfolding op_exec_cond
op_exec_cond-code ge c f = simp reads
op_exec_cond-code gt c f = simp reads
op_exec_cond-code le c f = simp reads
op_exec_cond-code lt c f = simp reads
op_exec_cond-code h c f = simp reads
op_exec_cond-code l c f = simp reads
op_exec_cond-code nh c f = simp reads
op_exec_cond-code nl c f = simp reads
op_exec_cond-code e c f = simp reads
op_exec_cond-code ne c f = simp reads

-- SETF and CMOV read each of the sixteen conditions but 0b1101 as a branch does, and that one the
-- other way round.
pub setf_chk_cond-op_exec_cond :
    (c : CpuRegister) (f : Flags) (cond : ℕ)
    → cond < 16
    → setf_chk_cond (with_flags c f) cond ≡ (
        if cond == 0b1101
        then not (op_exec_cond (with_flags c f) cond)
        else op_exec_cond (with_flags c f) cond)
unfolding setf_chk_cond op_exec_cond
setf_chk_cond-op_exec_cond c f cond small =
    each_below 16
      (λ k. setf_chk_cond (with_flags c f) k ≡ (
        if k == 0b1101
        then not (op_exec_cond (with_flags c f) k)
        else op_exec_cond (with_flags c f) k))
      (
        simp reads,
        (
          simp reads,
          (
            simp reads,
            (
              simp reads,
              (
                simp reads,
                (
                  simp reads,
                  (
                    simp reads,
                    (
                      simp reads,
                      (
                        simp reads,
                        (
                          simp reads,
                          (
                            refl,
                            (
                              simp reads,
                              (simp reads, (simp reads, (simp reads, (simp reads, tt)))),
                            ),
                          ),
                        ),
                      ),
                    ),
                  ),
                ),
              ),
            ),
          ),
        ),
      )
      cond small

code_bounds : (rel : Relation) → (code rel < 16) × (code rel ≢ 0b1101)
code_bounds rel = ground arith

setf_chk_cond-eq :
    (c : CpuRegister) (f : Flags) (cond : ℕ)
    → cond < 16
    → cond ≢ 0b1101
    → setf_chk_cond (with_flags c f) cond ≡ op_exec_cond (with_flags c f) cond
setf_chk_cond-eq c f cond small other = ground (arith, setf_chk_cond-op_exec_cond c f cond small)

-- After CMP of two words, each comparing condition of a branch and of SETF, CMOV holds exactly
-- when the relation that it names holds between reg2 and reg1, signed or unsigned.
pub cmp-cond :
    (rel : Relation) (op : OpCodeFormatType1) (c : CpuRegister) (f : Flags)
    → Fits f
    → op.reg1 < greg_num
    → op.reg2 < greg_num
    → Word (val1 op c)
    → Word (val2 op c)
    → let c' = (op_exec_cmp_1 op (with_flags c f)).1 in
      (op_exec_cond c' (code rel) ≡ means rel (val2 op c) (val1 op c))
      × (setf_chk_cond c' (code rel) ≡ means rel (val2 op c) (val1 op c))
cmp-cond rel op c f fits in1 in2 p q =
    let done = add_sub_effects op c f fits in1 in2 p q in
    let g = sub_flags f (val2 op c) (val1 op c) in
    let holds =
      op_exec_cond-code rel (advance 2 c) g ∙ reads_as-means rel f (val2 op c) (val1 op c) q p in
    rw (done.2) (
      holds,
      setf_chk_cond-eq (advance 2 c) g (code rel) (code_bounds rel).0 (code_bounds rel).1 ∙ holds,
    )
