-- ===== src/Cpu/Ops/Bounds.antt =====
-- The sign extension of a field of any width, and bounds of the bit operations.
use athrill_target_rh850f1x.Base.{
  ℕ, zero, suc, ◌+◌, ◌-◌, ◌*◌, ◌/◌, ◌^◌, ◌≤◌, ◌<◌, ◌≡◌, bit_or, if◌then◌else◌, arith, refl, ltb,
  bit_at, bit_or_step, bit_or-zero, bit_and_single,
}
use native.Mathlib.Decide.{dec_lt}
use native.Mathlib.Nat.{pow-suc, one-le-pow, mul_comm, div-div-eq-div-mul}
use athrill_target_rh850f1x.Cpu.Ops.Extend.{fill_ones, op_sign_extend}

-- Setting one bit adds its weight if the bit was clear.
pub bit_or_single : (k w : ℕ) → bit_or w (2 ^ k) ≡ w + (1 - bit_at w k) * 2 ^ k
bit_or_single zero w = omega (arith, bit_or_step w 1, bit_or-zero (w / 2))
bit_or_single (suc k) w =
    rw (pow-suc 2 k, mul_comm (2 ^ k) 2, ← div-div-eq-div-mul w 2 (2 ^ k))
      (ground (arith, bit_or_step w (2 * 2 ^ k), bit_or_single k (w / 2)))

bit_at-zero : (k w : ℕ) → w < 2 ^ k → bit_at w k ≡ 0
bit_at-zero k w h = grind arith

pow-suc-one : (i : ℕ) → 2 ^ (i + 1) ≡ 2 * 2 ^ i
pow-suc-one i = rw (let e : i + 1 ≡ suc i = omega arith in e, pow-suc 2 i) (omega arith)

-- The loop sets the bits from `i` on.
pub fill_ones_lem : (left i w : ℕ) → w < 2 ^ i → fill_ones left i w + 2 ^ i ≡ w + 2 ^ (i + left)
unfolding fill_ones
fill_ones_lem zero i w h = rw (let e : i + 0 ≡ i = omega arith in e)
fill_ones_lem (suc left) i w h =
    let e : bit_or w (2 ^ i) ≡ w + 2 ^ i =
      rw (bit_or_single i w, bit_at-zero i w h) (omega arith) in
    let twice : 2 ^ (i + 1) ≡ 2 * 2 ^ i = pow-suc-one i in
    let shift : i + 1 + left ≡ i + suc left = omega arith in
    let ih = fill_ones_lem left (i + 1) (w + 2 ^ i) (omega arith) in
    rw e (omega (arith, rw shift at ih))

bit_at-one : (k w : ℕ) → 2 ^ k ≤ w → w < 2 ^ (k + 1) → bit_at w k ≡ 1
bit_at-one k w p q = grind (arith, pow-suc-one k)

fill_ones-suc :
    (left i w : ℕ) → fill_ones (suc left) i w ≡ fill_ones left (i + 1) (bit_or w (2 ^ i))
unfolding fill_ones
fill_ones-suc left i w = refl

-- Sign extension from bit `k < 32`: a field of `k + 1` bits whose top bit is clear stays; another
-- one loses 2 ^ (k + 1), as a word.
pub op_sign_extend_lem :
    (k w : ℕ)
    → k < 32
    → w < 2 ^ (k + 1)
    → op_sign_extend k w ≡ (if ltb w (2 ^ k) then w else w + 2 ^ 32 - 2 ^ (k + 1))
unfolding op_sign_extend
op_sign_extend_lem k w in_word field = elim (dec_lt w (2 ^ k)) [
  | yes p ↦ ground (arith, bit_and_single k w, bit_at-zero k w p)
  | no np ↦
      let set_bit : bit_at w k ≡ 1 = bit_at-one k w (omega arith) field in
      let width : 32 - k ≡ suc (31 - k) = omega arith in
      let top : k + 1 + (31 - k) ≡ 32 = omega arith in
      let first : bit_or w (2 ^ k) ≡ w = rw (bit_or_single k w, set_bit) (omega arith) in
      let rest = fill_ones_lem (31 - k) (k + 1) w field in
      rw width (
        ground (
          arith,
          bit_and_single k w,
          set_bit,
          one-le-pow k 2,
          fill_ones-suc (31 - k) k w,
          first,
          rw top at rest,
        ))
]
