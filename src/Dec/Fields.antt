-- ===== src/Dec/Fields.antt =====
-- The fields of the code words as arithmetic: a field is a quotient's remainder.
use athrill_target_rh850f1x.Base.{
  ℕ, ◌*◌, ◌/◌, ◌%◌, ◌^◌, ◌-◌, ◌≡◌, bit_and, arith, bit_and_mask, bit_and_high,
}
use native.Mathlib.Nat.{mul-div_cancel, one-le-pow}
use athrill_target_rh850f1x.Dec.Types.{field}

-- A field of `k` bits from bit `s` on.
pub field_lem : (w s k : ℕ) → field w s (2 ^ k - 1) ≡ w / 2 ^ s % 2 ^ k
field_lem w s k = bit_and_mask k (w / 2 ^ s)

-- The macros mask first and shift then.
pub mask_shift : (w s k : ℕ) → bit_and w ((2 ^ k - 1) * 2 ^ s) / 2 ^ s ≡ w / 2 ^ s % 2 ^ k
mask_shift w s k =
    rw (bit_and_high s w (2 ^ k - 1), bit_and_mask k (w / 2 ^ s))
      (mul-div_cancel _ (one-le-pow s 2 (omega arith)))
