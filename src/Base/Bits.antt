-- ===== src/Base/Bits.antt =====
-- The native `bit_and` and `bit_or` mean `bitwise`, a recursion on binary digits with fuel. Here
-- the fuel is dropped, and masks of one bit and of low bits become arithmetic.
use Prim.Native.Nat.{
  ℕ, zero, suc, ◌+◌, ◌-◌, ◌*◌, ◌/◌, ◌%◌, ◌^◌, ◌≤◌, ◌<◌, min, max, bit_and, bit_or, digits, bitwise,
  bit_and-bitwise, bit_or-bitwise,
}
use mathlib.Core.Path.{◌≡◌, refl, ap, ◌∙◌}
use native.Mathlib.Decide.{dec_lt}
use native.Mathlib.Nat.{pow-suc, one-le-pow, mul_comm, div-one, div-div-eq-div-mul, mod-add-div}
use native.Mathlib.Omega.{arith}

module _ (none : ℕ → ℕ) (digit : ℕ → ℕ → ℕ) where
  -- One round more than there are digits changes nothing,
  round_more :
      (fuel x y : ℕ) → x ≤ fuel → digits none digit (suc fuel) x y ≡ digits none digit fuel x y
  round_more zero zero y le = refl
  round_more (suc fuel) zero y le = refl
  round_more zero (suc x) y le = elim le [ ]
  round_more (suc fuel) (suc x) y le =
      ap (λ rest. rest * 2 + digit (suc x % 2) (y % 2))
        (round_more fuel (suc x / 2) (y / 2) (omega arith))

  -- and so no further round does.
  rounds_more : (fuel x y : ℕ) → x ≤ fuel → digits none digit fuel x y ≡ bitwise none digit x y
  rounds_more zero zero y le = refl
  rounds_more zero (suc x) y le = elim le [ ]
  rounds_more (suc fuel) x y le = elim (dec_lt fuel x) [
    | yes last ↦
        let all : suc fuel ≡ x = omega (arith, last, le) in ap (λ k. digits none digit k x y) all
    | no more ↦
        round_more fuel x y (omega (arith, more)) ∙ rounds_more fuel x y (omega (arith, more))
  ]

  lowest_digit :
      (x y : ℕ)
      → bitwise none digit (suc x) y
        ≡ digit (suc x % 2) (y % 2) + 2 * bitwise none digit (suc x / 2) (y / 2)
  lowest_digit x y = omega (arith, rounds_more x (suc x / 2) (y / 2) (omega arith))

pub bit_or_step : (x y : ℕ) → bit_or x y ≡ max (x % 2) (y % 2) + 2 * bit_or (x / 2) (y / 2)
bit_or_step zero y = simp bit_or-bitwise (omega arith)
bit_or_step (suc x) y = simp bit_or-bitwise (lowest_digit (λ k. k) max x y)

pub bit_and_step : (x y : ℕ) → bit_and x y ≡ min (x % 2) (y % 2) + 2 * bit_and (x / 2) (y / 2)
bit_and_step zero y = simp bit_and-bitwise (omega arith)
bit_and_step (suc x) y = simp bit_and-bitwise (lowest_digit (λ _. 0) min x y)

-- Against 0, all digits go or stay.
with_zero : (fuel x : ℕ) → x ≤ fuel → (bit_and x 0 ≡ 0) × (bit_or x 0 ≡ x)
with_zero fuel zero le = (refl, refl)
with_zero zero (suc x) le = elim le [ ]
with_zero (suc fuel) (suc x) le =
    let half = with_zero fuel (suc x / 2) (omega arith) in
    (omega (arith, half.0, bit_and_step (suc x) 0), omega (arith, half.1, bit_or_step (suc x) 0))

pub bit_and-zero : (x : ℕ) → bit_and x 0 ≡ 0
bit_and-zero x = (with_zero x x (omega arith)).0

pub bit_or-zero : (x : ℕ) → bit_or x 0 ≡ x
bit_or-zero x = (with_zero x x (omega arith)).1

-- The lowest digit of a remainder by `2 * m`.
pub mod-two-mul : (a m : ℕ) → a % (2 * m) ≡ a / 2 % m * 2 + a % 2
mod-two-mul a m =
    omega (arith, rw (← div-div-eq-div-mul a 2 m) at (mod-add-div a (2 * m)), mod-add-div (a / 2) m)

-- A mask of `k` low bits is the remainder by `2 ^ k`.
pub bit_and_mask : (k a : ℕ) → bit_and a (2 ^ k - 1) ≡ a % 2 ^ k
bit_and_mask zero a = omega (arith, bit_and-zero a)
bit_and_mask (suc k) a =
    rw (pow-suc 2 k, mul_comm (2 ^ k) 2, mod-two-mul a (2 ^ k))
      (ground (arith, bit_and_step a (2 * 2 ^ k - 1), bit_and_mask k (a / 2), one-le-pow k 2))

-- Bit `k` of a word.
abbrev pub bit_at : ℕ → ℕ → ℕ
bit_at w k = w / 2 ^ k % 2

-- A mask of the one bit `k`.
pub bit_and_single : (k w : ℕ) → bit_and w (2 ^ k) ≡ bit_at w k * 2 ^ k
bit_and_single zero w = omega (arith, bit_and_step w 1, bit_and-zero (w / 2))
bit_and_single (suc k) w =
    rw (pow-suc 2 k, mul_comm (2 ^ k) 2, ← div-div-eq-div-mul w 2 (2 ^ k))
      (ground (arith, bit_and_step w (2 * 2 ^ k), bit_and_single k (w / 2)))

-- Words of `k` bits stay so under the bit operations.
pub bit_or-lt : (k a b : ℕ) → a < 2 ^ k → b < 2 ^ k → bit_or a b < 2 ^ k
bit_or-lt zero a b p q =
    rw (let e : a ≡ 0 = omega arith in e, let e : b ≡ 0 = omega arith in e) (omega arith)
bit_or-lt (suc k) a b p q = omega (
  arith,
  bit_or_step a b,
  pow-suc 2 k,
  bit_or-lt k (a / 2) (b / 2) (omega (arith, pow-suc 2 k)) (omega (arith, pow-suc 2 k)),
)

-- A mask above the `k` lowest bits reads the word without them.
pub bit_and_high : (k w m : ℕ) → bit_and w (m * 2 ^ k) ≡ bit_and (w / 2 ^ k) m * 2 ^ k
bit_and_high zero w m = rw (let e : m * 2 ^ 0 ≡ m = omega arith in e, div-one w) (omega arith)
bit_and_high (suc k) w m =
    let e : m * 2 ^ suc k ≡ 2 * (m * 2 ^ k) = rw (pow-suc 2 k) (omega arith) in
    rw (e, pow-suc 2 k, mul_comm (2 ^ k) 2, ← div-div-eq-div-mul w 2 (2 ^ k))
      (ground (arith, bit_and_step w (2 * (m * 2 ^ k)), bit_and_high k (w / 2) m))

-- `(q << k) | r` is a sum where `r` fits `k` bits.
pub bit_or_fields : (k q r : ℕ) → r < 2 ^ k → bit_or (q * 2 ^ k) r ≡ q * 2 ^ k + r
bit_or_fields zero q r fits =
    rw (let e : r ≡ 0 = omega arith in e, bit_or-zero (q * 2 ^ 0)) (omega arith)
bit_or_fields (suc k) q r fits =
    let e : q * 2 ^ suc k ≡ 2 * (q * 2 ^ k) = rw (pow-suc 2 k) (omega arith) in
    rw e (
      ground (
        arith,
        bit_or_step (2 * (q * 2 ^ k)) r,
        bit_or_fields k q (r / 2) (omega (arith, pow-suc 2 k)),
      ))
