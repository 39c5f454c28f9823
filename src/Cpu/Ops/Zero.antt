-- ===== src/Cpu/Ops/Zero.antt =====
-- op_zero_extend of src/cpu/cpu_common/cpu_ops.h, on a field that fits.
use athrill_target_rh850f1x.Base.{
  ℕ, zero, suc, ◌+◌, ◌-◌, ◌*◌, ◌/◌, ◌%◌, ◌^◌, ◌<◌, ◌≤◌, ◌≡◌, refl, bit_and, arith, bit_and_step,
  bit_and_mask, mod-two-mul, each_below,
}
use Prim.Native.Nat.{bit_and-bitwise}
use native.Mathlib.Nat.{pow-suc, mul_comm, mod-eq_of_lt}
use athrill_target_rh850f1x.Cpu.Ops.Extend.{fill_zeros, op_zero_extend}

-- A word of `k` bits meets only the `k` low bits of a mask.
bit_and_low : (k w m : ℕ) → w < 2 ^ k → bit_and w m ≡ bit_and w (m % 2 ^ k)
bit_and_low zero w m h = let e : w ≡ 0 = omega arith in rw e (simp bit_and-bitwise refl)
bit_and_low (suc k) w m h =
    rw (pow-suc 2 k, mul_comm (2 ^ k) 2, mod-two-mul m (2 ^ k))
      (ground (
        arith,
        bit_and_step w m,
        bit_and_step w (m / 2 % 2 ^ k * 2 + m % 2),
        bit_and_low k (w / 2) (m / 2),
        pow-suc 2 k,
      ))

low_ones : (i : ℕ) → i < 32 → (2 ^ 32 - 1 - 2 ^ i) % 2 ^ i ≡ 2 ^ i - 1
low_ones = each_below 32 (λ i. (2 ^ 32 - 1 - 2 ^ i) % 2 ^ i ≡ 2 ^ i - 1) (search depth 40)

fill_zeros_lem : (left i w : ℕ) → i + left ≤ 32 → w < 2 ^ i → fill_zeros left i w ≡ w
unfolding fill_zeros
fill_zeros_lem zero i w all fits = refl
fill_zeros_lem (suc left) i w all fits =
    let same : bit_and w (2 ^ 32 - 1 - 2 ^ i) ≡ w =
      rw (bit_and_low i w (2 ^ 32 - 1 - 2 ^ i) fits, low_ones i (omega arith), bit_and_mask i w)
        (mod-eq_of_lt fits) in
    let step : i + 1 ≡ suc i = omega arith in
    let fits' : w < 2 ^ (i + 1) = rw step (omega (arith, pow-suc 2 i)) in
    rw same (fill_zeros_lem left (i + 1) w (omega arith) fits')

pub op_zero_extend_lem : (k w : ℕ) → k ≤ 32 → w < 2 ^ k → op_zero_extend k w ≡ w
unfolding op_zero_extend
op_zero_extend_lem k w h fits = fill_zeros_lem (32 - k) k w (omega arith) fits
