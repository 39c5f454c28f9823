-- ===== src/Cpu/Bit/Search.antt =====
-- What the searches for a bit find.
use native.Mathlib.Decide.{dec_lt, ℕ_discrete}
use athrill_target_rh850f1x.Base.{
  ℕ, zero, suc, ◌+◌, ◌-◌, ◌*◌, ◌/◌, ◌%◌, ◌^◌, ◌<◌, ◌≤◌, ◌≡◌, arith, refl, ◌∙◌, Bool, true, false,
  ◌==◌, bit_and, bit_at, mod-two-mul, bit_and_single,
}
use native.Mathlib.Nat.{one-le-pow, pow-suc, div-eq_of_lt, div-eq_of_lt-le, div-div-eq-div-mul}
use athrill_target_rh850f1x.Cpu.State.{Word}
use athrill_target_rh850f1x.Cpu.Bit.{search_loop, place}

bit_at-le : (w k : ℕ) → bit_at w k ≤ 1
bit_at-le w k = omega arith

-- One digit more of a word.
mod-pow-suc : (i w : ℕ) → w % 2 ^ (i + 1) ≡ w % 2 ^ i + bit_at w i * 2 ^ i
mod-pow-suc zero w = omega arith
mod-pow-suc (suc i) w =
    let one_up : 2 ^ suc i ≡ 2 * 2 ^ i = omega arith in
    let sum : suc i + 1 ≡ suc (i + 1) = omega arith in
    let two_up : 2 ^ (suc i + 1) ≡ 2 * 2 ^ (i + 1) = rw sum (omega arith) in
    rw
      (
        two_up,
        one_up,
        mod-two-mul w (2 ^ (i + 1)),
        mod-two-mul w (2 ^ i),
        ← div-div-eq-div-mul w 2 (2 ^ i),
      )
      (ground (arith, mod-pow-suc i (w / 2)))

one_test : (k w : ℕ) → (bit_and w (2 ^ k) == 2 ^ k) ≡ (bit_at w k == 1)
one_test k w = rw (bit_and_single k w) (grind (arith, one-le-pow k 2, bit_at-le w k))

zero_test : (k w : ℕ) → (bit_and w (2 ^ k) == 0) ≡ (bit_at w k == 0)
zero_test k w = rw (bit_and_single k w) (grind (arith, one-le-pow k 2, bit_at-le w k))

top_digit : (n w : ℕ) → ¬ (w < 2 ^ n) → w < 2 ^ suc n → w / 2 ^ n ≡ 1
top_digit n w top small =
    div-eq_of_lt-le (2 ^ n) (omega (arith, top)) (omega (arith, rw (pow-suc 2 n) at small))

-- From the left the first 1 of a word that is not 0 is the top digit of what the search has not
-- passed.
pub left_finds :
    (n i w : ℕ)
    → n + i ≡ 32
    → w < 2 ^ n
    → 0 < w
    → let (found, count) = search_loop n i i w true true in
      (found ≡ true) × (count < 32) × (w / 2 ^ (31 - count) ≡ 1)
unfolding search_loop
left_finds zero i w e small p = absurd (omega (arith, small))
left_finds (suc n) i w e small p = elim (dec_lt w (2 ^ n)) [
  | yes below ↦
      let at : 31 - i ≡ n = omega arith in
      let clear : w / 2 ^ n ≡ 0 = div-eq_of_lt below in
      let miss : (bit_and w (2 ^ (31 - i)) == 2 ^ (31 - i)) ≡ false =
        rw at (one_test n w ∙ ground (arith, clear)) in
      rw miss (left_finds n (i + 1) w (omega arith) below p)
  | no top ↦
      let at : 31 - i ≡ n = omega arith in
      let set_bit = top_digit n w top small in
      let hit : (bit_and w (2 ^ (31 - i)) == 2 ^ (31 - i)) ≡ true =
        rw at (one_test n w ∙ ground (arith, set_bit)) in
      rw hit (refl, omega arith, rw at set_bit)
]

-- From the right the first 1 stands on as many digits 0 as the search has passed.
pub right_finds :
    (n i w : ℕ)
    → n + i ≡ 32
    → w % 2 ^ i ≡ 0
    → 0 < w
    → Word w
    → let (found, count) = search_loop n i i w true false in
      (found ≡ true) × (count < 32) × (w % 2 ^ (count + 1) ≡ 2 ^ count)
unfolding search_loop
right_finds zero i w e passed p word =
    let last : i ≡ 32 = omega (arith, e) in absurd (omega (arith, rw last at passed, p, word))
right_finds (suc n) i w e passed p word = elim (ℕ_discrete (bit_at w i) 1) [
  | yes set_bit ↦
      let hit : (bit_and w (2 ^ i) == 2 ^ i) ≡ true = one_test i w ∙ ground (arith, set_bit) in
      rw hit
        (refl, omega arith, omega (arith, mod-pow-suc i w, passed, rw set_bit at (mod-pow-suc i w)))
  | no clear ↦
      let is_clear : bit_at w i ≡ 0 = omega (arith, clear, bit_at-le w i) in
      let miss : (bit_and w (2 ^ i) == 2 ^ i) ≡ false = one_test i w ∙ ground (arith, clear) in
      rw miss (
        right_finds n (i + 1) w (omega arith)
          (omega (arith, rw is_clear at (mod-pow-suc i w), passed)) p word)
]

-- Each digit of a word of `m` digits is the other one in its complement.
flipped : (k m w : ℕ) → k < m → w < 2 ^ m → bit_at (2 ^ m - 1 - w) k + bit_at w k ≡ 1
flipped k zero w inside small = elim inside [ ]
flipped zero (suc m) w inside small = omega (arith, pow-suc 2 m, small)
flipped (suc k) (suc m) w inside small =
    let half : (2 ^ suc m - 1 - w) / 2 ≡ 2 ^ m - 1 - w / 2 = omega (arith, pow-suc 2 m, small) in
    let one_up : 2 ^ suc k ≡ 2 * 2 ^ k = omega arith in
    rw
      (
        one_up,
        ← div-div-eq-div-mul (2 ^ suc m - 1 - w) 2 (2 ^ k),
        ← div-div-eq-div-mul w 2 (2 ^ k),
        half,
      )
      (flipped k m (w / 2) (omega (arith, inside)) (omega (arith, pow-suc 2 m, small)))

place-lt : (search_left : Bool) (i n : ℕ) → suc n + i ≡ 32 → place search_left i < 32
place-lt search_left i n e = ground arith

-- The searches for a 0 are the searches for a 1 in the complement.
pub complement :
    (n i count w : ℕ) (search_left : Bool)
    → Word w
    → n + i ≡ 32
    → search_loop n i count w false search_left
      ≡ search_loop n i count (2 ^ 32 - 1 - w) true search_left
unfolding search_loop
complement zero i count w search_left word e = refl
complement (suc n) i count w search_left word e =
    let k = place search_left i in
    let other : (bit_at (2 ^ 32 - 1 - w) k == 1) ≡ (bit_at w k == 0) =
      ground (arith, flipped k 32 w (place-lt search_left i n e) word) in
    rw
      (
        complement n (i + 1) (count + 1) w search_left word (omega (arith, e)),
        zero_test k w,
        one_test k (2 ^ 32 - 1 - w),
        other,
      )
      refl
