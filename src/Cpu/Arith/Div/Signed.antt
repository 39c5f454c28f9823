-- ===== src/Cpu/Arith/Div/Signed.antt =====
-- The signed division of words.
use athrill_target_rh850f1x.Base.{
  ℕ, suc, ◌+◌, ◌*◌, ◌/◌, ◌^◌, ◌≤◌, ◌<◌, ◌≡◌, ◌≢◌, arith, refl, length, set, ℤ, pos, negsuc,
  pos_part, neg_part, ◌+ℤ◌, ◌*ℤ◌, quot_ℤ, rem_ℤ, signed32, word32,
}
use native.Mathlib.Nat.{div-add-mod}
use athrill_target_rh850f1x.Cpu.State.{
  CpuRegister, fault, greg_num, read_reg, write_reg, Word, OpCodeFormatType11,
}
use athrill_target_rh850f1x.Cpu.Psw.{cpu_clr_ov, clr_mask}
use athrill_target_rh850f1x.Cpu.Arith.Div.{op_exec_div, op_exec_div_common}
use athrill_target_rh850f1x.Cpu.Arith.Div.Faults.{InRange}
use athrill_target_rh850f1x.Cpu.Arith.Div.Quotient.{finish_div-r, get_or-set-set}

quot-rem : (x y : ℤ) → 0 < pos_part y + neg_part y → quot_ℤ x y *ℤ y +ℤ rem_ℤ x y ≡ x
unfolding quot_ℤ rem_ℤ ◌*ℤ◌ ◌+ℤ◌
quot-rem (pos m) (pos n) h = ground (arith, div-add-mod m n)
quot-rem (pos m) (negsuc n) h = ground (arith, div-add-mod m (suc n))
quot-rem (negsuc m) (pos n) h = ground (arith, div-add-mod (suc m) n)
quot-rem (negsuc m) (negsuc n) h = ground (arith, div-add-mod (suc m) (suc n))

-- An integer in the range of sint32.
abbrev InWord : ℤ → Type 0
InWord x = (pos_part x < 2 ^ 31) × (neg_part x ≤ 2 ^ 31)

signed_word : (x : ℤ) → InWord x → signed32 (word32 x) ≡ x
signed_word x h = ground arith

signed-InWord : (w : ℕ) → Word w → InWord (signed32 w)
signed-InWord w h = ground arith

div-le-half : (m n : ℕ) → 2 ≤ n → m / n * 2 ≤ m
div-le-half m n h = grind (arith, div-add-mod m n)

quot-InWord :
    (x y : ℤ)
    → InWord x
    → 0 < pos_part y + neg_part y
    → (neg_part x ≡ 2 ^ 31 → neg_part y ≢ 1)
    → InWord (quot_ℤ x y)
unfolding quot_ℤ
quot-InWord (pos m) (pos n) h nz ne = ground arith
quot-InWord (pos m) (negsuc n) h nz ne = ground arith
quot-InWord (negsuc m) (pos n) h nz ne = ground arith
quot-InWord (negsuc m) (negsuc n) h nz ne = ground (arith, div-le-half (suc m) (suc n))

rem-InWord : (x y : ℤ) → InWord x → InWord (rem_ℤ x y)
unfolding rem_ℤ
rem-InWord x y h = ground arith

module _ (op : OpCodeFormatType11) (c : CpuRegister) where
  abbrev a : ℕ
  a = read_reg c op.reg2

  abbrev b : ℕ
  b = read_reg c op.reg1

  div-r :
      InRange op c
      → b ≢ 0
      → (op_exec_div op c).0 ≢ fault
      → (op_exec_div op c).1.r
        ≡ set
            (set c.r op.reg2 (word32 (quot_ℤ (signed32 a) (signed32 b))))
            op.reg3
            (word32 (rem_ℤ (signed32 a) (signed32 b)))
  unfolding op_exec_div op_exec_div_common clr_mask
  div-r h nz nf =
      let c1 = write_reg (cpu_clr_ov c) op.reg2 (word32 (quot_ℤ (signed32 a) (signed32 b))) in
      ground (
        arith,
        finish_div-r 4 op.reg2 (write_reg c1 op.reg3 (word32 (rem_ℤ (signed32 a) (signed32 b)))),
      )

  no_overflow :
      InRange op c
      → b ≢ 0
      → (op_exec_div op c).0 ≢ fault
      → Word a
      → Word b
      → neg_part (signed32 a) ≡ 2 ^ 31
      → neg_part (signed32 b) ≢ 1
  unfolding op_exec_div op_exec_div_common
  no_overflow h nz nf p q e = ground arith

  -- DIV of words by a divisor that is not 0, with different registers for its two results, leaves
  -- the signed quotient and remainder of C wherever it does not fault: the quotient times the
  -- divisor and the remainder give the dividend back.
  pub div-quotient :
      InRange op c
      → length c.r ≡ greg_num
      → op.reg2 ≢ op.reg3
      → Word a
      → Word b
      → b ≢ 0
      → (op_exec_div op c).0 ≢ fault
      → let c' = (op_exec_div op c).1 in
        (signed32 (read_reg c' op.reg2) *ℤ signed32 b +ℤ signed32 (read_reg c' op.reg3)
          ≡ signed32 a)
        × (signed32 (read_reg c' op.reg2) ≡ quot_ℤ (signed32 a) (signed32 b))
  div-quotient h regs ne p q nz nf =
      let x = signed32 a in
      let y = signed32 b in
      let back =
        get_or-set-set c.r op.reg2 op.reg3 (word32 (quot_ℤ x y)) (word32 (rem_ℤ x y)) (omega arith)
          (omega arith) ne in
      let pos_y : 0 < pos_part y + neg_part y = ground arith in
      let quot_ok =
        signed_word (quot_ℤ x y)
          (quot-InWord x y (signed-InWord a p) pos_y (no_overflow h nz nf p q)) in
      let rem_ok = signed_word (rem_ℤ x y) (rem-InWord x y (signed-InWord a p)) in
      rw (div-r h nz nf, back.0, back.1, quot_ok, rem_ok) (quot-rem x y pos_y, refl)
