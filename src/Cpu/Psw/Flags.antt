-- ===== src/Cpu/Psw/Flags.antt =====
-- A status word read as its flags, and the arithmetic of setting and clearing one bit of a word.
use athrill_target_rh850f1x.Base.{
  ℕ, ◌+◌, ◌-◌, ◌*◌, ◌/◌, ◌%◌, ◌^◌, ◌≤◌, ◌<◌, ◌≡◌, bit_and, bit_or, Bool, true, false, ◌==◌, arith,
  ap, bit_and_step, bit_and_mask, bit_or_step, bit_or-zero,
}
use athrill_target_rh850f1x.Cpu.State.{CpuRegister}

-- A status word as its five arithmetic flags and the rest of its bits.
pub record Flags : Type 0 where
  pub z : Bool
  pub s : Bool
  pub ov : Bool
  pub cy : Bool
  pub sat : Bool
  pub rest : ℕ

abbrev pub bit : Bool → ℕ
bit true = 1
bit false = 0

unfoldable pub encode : Flags → ℕ
encode f = bit f.z + bit f.s * 2 + bit f.ov * 4 + bit f.cy * 8 + bit f.sat * 16 + f.rest * 32

abbrev pub decode : ℕ → Flags
decode w = record {
  z = w % 2 == 1;
  s = w / 2 % 2 == 1;
  ov = w / 4 % 2 == 1;
  cy = w / 8 % 2 == 1;
  sat = w / 16 % 2 == 1;
  rest = w / 32;
}

-- The state with the status word made of the flags `f`.
abbrev pub with_flags : CpuRegister → Flags → CpuRegister
with_flags c f = record c { psw = encode f }

-- The rest is of 27 bits.
abbrev pub Fits : Flags → Type 0
Fits f = f.rest < 2 ^ 27

pub bit-le : (b : Bool) → bit b ≤ 1
bit-le true = omega arith
bit-le false = omega arith

bit_test : (n : ℕ) → n ≤ 1 → bit (n == 1) ≡ n
bit_test n h = ground arith

pub encode-decode : (w : ℕ) → encode (decode w) ≡ w
unfolding encode
encode-decode w = omega (
  arith,
  bit_test (w % 2) (omega arith),
  bit_test (w / 2 % 2) (omega arith),
  bit_test (w / 4 % 2) (omega arith),
  bit_test (w / 8 % 2) (omega arith),
  bit_test (w / 16 % 2) (omega arith),
)

pub or_z : (w : ℕ) → bit_or w (2 ^ 0) ≡ w + (1 - w % 2)
or_z w = omega (arith, bit_or_step w 1, bit_or-zero (w / 2))

pub or_s : (w : ℕ) → bit_or w (2 ^ 1) ≡ w + (1 - w / 2 % 2) * 2
or_s w = omega (arith, bit_or_step w 2, or_z (w / 2))

pub or_ov : (w : ℕ) → bit_or w (2 ^ 2) ≡ w + (1 - w / 4 % 2) * 4
or_ov w = omega (arith, bit_or_step w 4, or_s (w / 2))

pub or_cy : (w : ℕ) → bit_or w (2 ^ 3) ≡ w + (1 - w / 8 % 2) * 8
or_cy w = omega (arith, bit_or_step w 8, or_ov (w / 2))

pub or_sat : (w : ℕ) → bit_or w (2 ^ 4) ≡ w + (1 - w / 16 % 2) * 16
or_sat w = omega (arith, bit_or_step w 16, or_cy (w / 2))

pub and_z : (w : ℕ) → w < 2 ^ 32 → bit_and w (2 ^ 32 - 1 - 2 ^ 0) ≡ w - w % 2
and_z w h = omega (arith, bit_and_step w 0xffff_fffe, bit_and_mask 31 (w / 2))

pub and_s : (w : ℕ) → w < 2 ^ 32 → bit_and w (2 ^ 32 - 1 - 2 ^ 1) ≡ w - w / 2 % 2 * 2
and_s w h = omega (
  arith,
  bit_and_step w 0xffff_fffd,
  bit_and_step (w / 2) 0x7fff_fffe,
  bit_and_mask 30 (w / 2 / 2),
)

pub and_ov : (w : ℕ) → w < 2 ^ 32 → bit_and w (2 ^ 32 - 1 - 2 ^ 2) ≡ w - w / 4 % 2 * 4
and_ov w h = omega (
  arith,
  bit_and_step w 0xffff_fffb,
  bit_and_step (w / 2) 0x7fff_fffd,
  bit_and_step (w / 2 / 2) 0x3fff_fffe,
  bit_and_mask 29 (w / 2 / 2 / 2),
)

pub and_cy : (w : ℕ) → w < 2 ^ 32 → bit_and w (2 ^ 32 - 1 - 2 ^ 3) ≡ w - w / 8 % 2 * 8
and_cy w h = omega (
  arith,
  bit_and_step w 0xffff_fff7,
  bit_and_step (w / 2) 0x7fff_fffb,
  bit_and_step (w / 2 / 2) 0x3fff_fffd,
  bit_and_step (w / 2 / 2 / 2) 0x1fff_fffe,
  bit_and_mask 28 (w / 2 / 2 / 2 / 2),
)

-- Every state with a word for its status is of this form.
pub with_flags-decode : (c : CpuRegister) → with_flags c (decode c.psw) ≡ c
with_flags-decode c = ap (λ (w : ℕ). record c { psw = w }) (encode-decode c.psw)
