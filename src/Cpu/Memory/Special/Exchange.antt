-- ===== src/Cpu/Memory/Special/Exchange.antt =====
-- CAXI compares a halfword of the memory with a register and exchanges it.
use athrill_target_rh850f1x.Base.{
  ℕ, ◌%◌, ◌^◌, ◌<◌, ◌≡◌, ◌∙◌, refl, true, if◌then◌else◌, ltb, ◌==◌, arith, bit_and, signed16, neg_ℤ,
  pos, ◌+ℤ◌, some,
}
use native.Mathlib.Nat.{mod-eq_of_lt}
use athrill_target_rh850f1x.Cpu.State.{
  CpuRegister, ok, read_reg, write_reg, advance, Word, OpCodeFormatType11,
}
use athrill_target_rh850f1x.Cpu.Ops.{sub32}
use athrill_target_rh850f1x.Cpu.Psw.Flags.{Flags, Fits, with_flags}
use athrill_target_rh850f1x.Cpu.Psw.Checks.{
  is_negative, overflows, borrow-with_flags, overflow-with_flags, zero-with_flags, sign-with_flags,
}
use athrill_target_rh850f1x.Cpu.Memory.Bus.{Bus, after_get-some, after_put-true, sext16}
use athrill_target_rh850f1x.Cpu.Memory.Special.{op_exec_caxi}

-- The flags after CAXI compared the word `r` with the halfword `token`.
abbrev pub caxi_flags : Flags → ℕ → ℕ → Flags
caxi_flags f r token = record f {
  cy = ltb r (sext16 token);
  ov = overflows (pos r +ℤ neg_ℤ (signed16 token));
  z = r % 2 ^ 16 == token;
  s = is_negative (sext16 (sub32 r (sext16 token)));
}

sext16-Word : (t : ℕ) → Word (sext16 t)
sext16-Word t = ground arith

same_half : (r t : ℕ) → Word r → t < 2 ^ 16 → (sext16 (sub32 r (sext16 t)) == 0) ≡ (r % 2 ^ 16 == t)
same_half r t h k = ground arith

module _ {M : Type 0} (b : Bus M) where
  -- If the bus gives the halfword `token` at the address in reg1, cut to a multiple of four, and takes
  -- the write, then CAXI writes the low half of reg3 where `token` is the low half of reg2 and else
  -- `token` again, and leaves `token` in reg3. Z tells whether the halves agree; CY and OV compare the
  -- whole of reg2 with `token` extended by its sign.
  pub caxi_exchanges :
      (op : OpCodeFormatType11) (c : CpuRegister) (f : Flags) (m : M) (token : ℕ)
      → Fits f
      → Word (read_reg c op.reg2)
      → token < 2 ^ 16
      → let r = read_reg c op.reg2 in
        let a = bit_and (read_reg c op.reg1) 0xffff_fffc in
        let got = b.get_data16 m a in
        let new = if r % 2 ^ 16 == token then read_reg c op.reg3 % 2 ^ 16 else token in
        let put = b.put_data16 got.0 a new in
        got.1 ≡ some token
        → put.1 ≡ true
        → op_exec_caxi b op (with_flags c f) m
          ≡ (ok, advance 4 (write_reg (with_flags c (caxi_flags f r token)) op.reg3 token), put.0)
  unfolding op_exec_caxi
  caxi_exchanges op c f m token h w k read written =
      let r = read_reg c op.reg2 in
      let a = bit_and (read_reg c op.reg1) 0xffff_fffc in
      let got = b.get_data16 m a in
      let c1 = write_reg c op.reg3 (token % 2 ^ 16) in
      let f1 = record f { cy = ltb r (sext16 token) } in
      let f2 = record f1 { ov = overflows (pos r +ℤ neg_ℤ (signed16 token)) } in
      let f3 = record f2 { z = r % 2 ^ 16 == token } in
      let result = sext16 (sub32 r (sext16 token)) in
      after_get-some (with_flags c f) got _ token read
      ∙ rw
          (
            same_half r token w k,
            borrow-with_flags c1 f h r (sext16 token) w (sext16-Word token),
            overflow-with_flags c1 f1 h (pos r) (neg_ℤ (signed16 token)),
            zero-with_flags c1 f2 h result,
            same_half r token w k,
            sign-with_flags c1 f3 h result,
            mod-eq_of_lt k,
            after_put-true (with_flags c f)
                (b.put_data16 got.0 a
                  (if r % 2 ^ 16 == token then read_reg c op.reg3 % 2 ^ 16 else token))
                _ written,
          )
          refl
