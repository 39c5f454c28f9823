-- ===== src/Cpu/Swap/Order.antt =====
-- The order of bytes and halfwords after a swap.
use athrill_target_rh850f1x.Base.{
  ℕ, ◌+◌, ◌*◌, ◌/◌, ◌%◌, ◌^◌, ◌<◌, ◌≡◌, arith, bit_and, bit_or, bit_and_mask, bit_and_high,
  bit_or_fields, set,
}
use athrill_target_rh850f1x.Cpu.State.{CpuRegister, read_reg, Word, OpCodeFormatType12}
use athrill_target_rh850f1x.Cpu.Psw.{set_mask, clr_mask}
use athrill_target_rh850f1x.Cpu.Swap.{op_exec_hsw_12, op_exec_bsh_12, op_exec_bsw_12}

-- The bytes of a word from the highest to the lowest.
abbrev pub from_bytes : ℕ → ℕ → ℕ → ℕ → ℕ
from_bytes b3 b2 b1 b0 = b3 * 2 ^ 24 + b2 * 2 ^ 16 + b1 * 2 ^ 8 + b0

byte_join :
    (b3 b2 b1 b0 : ℕ)
    → b2 < 256
    → b1 < 256
    → b0 < 256
    → bit_or (bit_or (bit_or (b3 * 2 ^ 24) (b2 * 2 ^ 16)) (b1 * 2 ^ 8)) b0 ≡ from_bytes b3 b2 b1 b0
byte_join b3 b2 b1 b0 p q r = ground (
  arith,
  bit_or_fields 24 b3 (b2 * 2 ^ 16),
  bit_or_fields 16 (b3 * 256 + b2) (b1 * 2 ^ 8),
  bit_or_fields 8 (b3 * 65536 + b2 * 256 + b1) b0,
)

byte_masks :
    (w : ℕ)
    → Word w
    → (bit_and w 0xff ≡ w % 256)
      × (bit_and w 0xff00 / 2 ^ 8 ≡ w / 2 ^ 8 % 256)
      × (bit_and w 0xff_0000 / 2 ^ 16 ≡ w / 2 ^ 16 % 256)
      × (bit_and w 0xff00_0000 / 2 ^ 24 ≡ w / 2 ^ 24)
byte_masks w h = (
  bit_and_mask 8 w,
  omega (arith, bit_and_high 8 w 255, bit_and_mask 8 (w / 2 ^ 8)),
  omega (arith, bit_and_high 16 w 255, bit_and_mask 8 (w / 2 ^ 16)),
  omega (arith, bit_and_high 24 w 255, bit_and_mask 8 (w / 2 ^ 24)),
)

half_masks :
    (w : ℕ)
    → Word w
    → (bit_and w 0xffff ≡ w % 2 ^ 16) × (bit_and w 0xffff_0000 / 2 ^ 16 ≡ w / 2 ^ 16)
half_masks w h =
    (bit_and_mask 16 w, omega (arith, bit_and_high 16 w 65535, bit_and_mask 16 (w / 2 ^ 16)))

module _ (op : OpCodeFormatType12) (c : CpuRegister) where
  abbrev w : ℕ
  w = read_reg c op.reg2

  hsw-value :
      Word w → (op_exec_hsw_12 op c).1.r ≡ set c.r op.reg3 (w % 2 ^ 16 * 2 ^ 16 + w / 2 ^ 16)
  unfolding op_exec_hsw_12 set_mask clr_mask
  hsw-value h = ground (arith, half_masks w h, bit_or_fields 16 (w % 2 ^ 16) (w / 2 ^ 16))

  bsh-value :
      Word w
      → (op_exec_bsh_12 op c).1.r
        ≡ set c.r op.reg3 (from_bytes (w / 2 ^ 16 % 256) (w / 2 ^ 24) (w % 256) (w / 2 ^ 8 % 256))
  unfolding op_exec_bsh_12 set_mask clr_mask
  bsh-value h =
      ground (
        arith,
        byte_masks w h,
        byte_join (w / 2 ^ 16 % 256) (w / 2 ^ 24) (w % 256) (w / 2 ^ 8 % 256),
      )

  bsw-value :
      Word w
      → (op_exec_bsw_12 op c).1.r
        ≡ set c.r op.reg3 (from_bytes (w % 256) (w / 2 ^ 8 % 256) (w / 2 ^ 16 % 256) (w / 2 ^ 24))
  unfolding op_exec_bsw_12 set_mask clr_mask
  bsw-value h =
      ground (
        arith,
        byte_masks w h,
        byte_join (w % 256) (w / 2 ^ 8 % 256) (w / 2 ^ 16 % 256) (w / 2 ^ 24),
      )

  -- HSW exchanges the halfwords of a word, BSH the bytes in each halfword, and BSW puts the four
  -- bytes in the opposite order; each writes reg3 and no other register.
  pub swap_orders :
      Word w
      → ((op_exec_hsw_12 op c).1.r ≡ set c.r op.reg3 (w % 2 ^ 16 * 2 ^ 16 + w / 2 ^ 16))
        × ((op_exec_bsh_12 op c).1.r
            ≡ set c.r op.reg3
                (from_bytes (w / 2 ^ 16 % 256) (w / 2 ^ 24) (w % 256) (w / 2 ^ 8 % 256)))
        × ((op_exec_bsw_12 op c).1.r
            ≡ set c.r op.reg3
                (from_bytes (w % 256) (w / 2 ^ 8 % 256) (w / 2 ^ 16 % 256) (w / 2 ^ 24)))
  swap_orders h = (hsw-value h, bsh-value h, bsw-value h)
