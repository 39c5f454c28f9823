-- ===== src/Cpu/Arith/Mul/Product.antt =====
-- The two registers of a multiplication, and the product.
use athrill_target_rh850f1x.Base.{
  ℕ, suc, ◌+◌, ◌-◌, ◌*◌, ◌/◌, ◌%◌, ◌^◌, ◌≤◌, ◌<◌, ◌≡◌, ◌≢◌, arith, if◌then◌else◌, length, set, ℤ,
  pos, negsuc, pos_part, neg_part, ◌*ℤ◌, signed32, word64, ltb,
}
use athrill_target_rh850f1x.Cpu.State.{CpuRegister, greg_num, read_reg, Word, OpCodeFormatType11}
use athrill_target_rh850f1x.Cpu.Arith.Mul.{op_exec_mul, op_exec_mulu}
use athrill_target_rh850f1x.Cpu.Arith.Div.Faults.{InRange}
use athrill_target_rh850f1x.Cpu.Arith.Div.Quotient.{get_or-set-set}

product_bound : (a b : ℕ) → a < 2 ^ 32 → b < 2 ^ 32 → a * b < 2 ^ 64
product_bound a b p q = grind arith

-- The signed reading of 64 bits in two words.
abbrev pub signed64 : ℕ → ℕ → ℤ
signed64 high low =
    let w = high * 2 ^ 32 + low in if ltb w (2 ^ 63) then pos w else negsuc (2 ^ 64 - w - 1)

square_bound : (m n : ℕ) → m ≤ 2 ^ 31 → n ≤ 2 ^ 31 → m * n ≤ 2 ^ 62
square_bound m n p q = grind arith

signed-bounds :
    (w : ℕ) → Word w → (pos_part (signed32 w) ≤ 2 ^ 31) × (neg_part (signed32 w) ≤ 2 ^ 31)
signed-bounds w h = ground arith

product-bounds :
    (x y : ℤ)
    → pos_part x ≤ 2 ^ 31
    → neg_part x ≤ 2 ^ 31
    → pos_part y ≤ 2 ^ 31
    → neg_part y ≤ 2 ^ 31
    → (pos_part (x *ℤ y) ≤ 2 ^ 62) × (neg_part (x *ℤ y) ≤ 2 ^ 62)
unfolding ◌*ℤ◌
product-bounds (pos m) (pos n) a b c d = ground (arith, square_bound m n)
product-bounds (pos m) (negsuc n) a b c d = ground (arith, square_bound m (suc n))
product-bounds (negsuc m) (pos n) a b c d = ground (arith, square_bound (suc m) n)
product-bounds (negsuc m) (negsuc n) a b c d = ground (arith, square_bound (suc m) (suc n))

signed64_word :
    (x : ℤ)
    → pos_part x ≤ 2 ^ 62
    → neg_part x ≤ 2 ^ 62
    → signed64 (word64 x / 2 ^ 32) (word64 x % 2 ^ 32) ≡ x
signed64_word x p q = ground arith

module _ (op : OpCodeFormatType11) (c : CpuRegister) where
  abbrev a : ℕ
  a = read_reg c op.reg2

  abbrev b : ℕ
  b = read_reg c op.reg1

  -- The registers are there and the two results go into different ones.
  abbrev pub TwoResults : Type 0
  TwoResults = InRange op c × (length c.r ≡ greg_num) × (op.reg2 ≢ op.reg3)

  -- MULU, with different registers for its two results, leaves the exact product of the two words:
  -- its upper half in reg3, its lower in reg2.
  pub mulu-product :
      TwoResults
      → Word a
      → Word b
      → let c' = (op_exec_mulu op c).1 in read_reg c' op.reg3 * 2 ^ 32 + read_reg c' op.reg2 ≡ a * b
  unfolding op_exec_mulu
  mulu-product h p q =
      let w = b * a % 2 ^ 64 in
      ground
        (arith, get_or-set-set c.r op.reg2 op.reg3 (w % 2 ^ 32) (w / 2 ^ 32), product_bound a b p q)

  mul-r :
      TwoResults
      → let w = word64 (signed32 b *ℤ signed32 a) in
        (op_exec_mul op c).1.r ≡ set (set c.r op.reg2 (w % 2 ^ 32)) op.reg3 (w / 2 ^ 32)
  unfolding op_exec_mul
  mul-r h = ground arith

  -- MUL, with different registers for its two results, leaves the exact signed product of the
  -- words, read as 64 bits from reg3 and reg2.
  pub mul-product :
      TwoResults
      → Word a
      → Word b
      → let c' = (op_exec_mul op c).1 in
        signed64 (read_reg c' op.reg3) (read_reg c' op.reg2) ≡ signed32 b *ℤ signed32 a
  mul-product h p q =
      let x = signed32 b *ℤ signed32 a in
      let w = word64 x in
      let back =
        get_or-set-set c.r op.reg2 op.reg3 (w % 2 ^ 32) (w / 2 ^ 32) (omega arith) (omega arith)
          h.2 in
      let bound =
        product-bounds (signed32 b) (signed32 a) (signed-bounds b q).0 (signed-bounds b q).1
          (signed-bounds a p).0 (signed-bounds a p).1 in
      rw (mul-r h, back.0, back.1) (signed64_word x bound.0 bound.1)
