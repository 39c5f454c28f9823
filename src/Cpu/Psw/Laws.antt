-- ===== src/Cpu/Psw/Laws.antt =====
-- What the flag operations do to a status word that is written as its flags.
use athrill_target_rh850f1x.Base.{ℕ, ◌≤◌, ◌≡◌, true, false, arith, ap, bit_and_single}
use athrill_target_rh850f1x.Cpu.State.{CpuRegister}
use athrill_target_rh850f1x.Cpu.Psw.{
  set_mask, clr_mask, isset_mask, cpu_set_z, cpu_clr_z, cpu_isset_z, cpu_set_s, cpu_clr_s,
  cpu_isset_s, cpu_set_ov, cpu_clr_ov, cpu_isset_ov, cpu_set_cy, cpu_clr_cy, cpu_isset_cy,
  cpu_set_sat, cpu_isset_sat,
}
use athrill_target_rh850f1x.Cpu.Psw.Flags.{
  Flags, bit, bit-le, encode, with_flags, Fits, or_z, or_s, or_ov, or_cy, or_sat, and_z, and_s,
  and_ov, and_cy,
}

module _ (c : CpuRegister) (f : Flags) where
  small : (bit f.z ≤ 1) × (bit f.s ≤ 1) × (bit f.ov ≤ 1) × (bit f.cy ≤ 1) × (bit f.sat ≤ 1)
  small = (bit-le f.z, bit-le f.s, bit-le f.ov, bit-le f.cy, bit-le f.sat)

  pub set_z-with_flags : cpu_set_z (with_flags c f) ≡ with_flags c (record f { z = true })
  unfolding set_mask encode
  set_z-with_flags = ap (λ (w : ℕ). record c { psw = w }) (omega (arith, or_z (encode f), small))

  pub set_s-with_flags : cpu_set_s (with_flags c f) ≡ with_flags c (record f { s = true })
  unfolding set_mask encode
  set_s-with_flags = ap (λ (w : ℕ). record c { psw = w }) (omega (arith, or_s (encode f), small))

  pub set_ov-with_flags : cpu_set_ov (with_flags c f) ≡ with_flags c (record f { ov = true })
  unfolding set_mask encode
  set_ov-with_flags = ap (λ (w : ℕ). record c { psw = w }) (omega (arith, or_ov (encode f), small))

  pub set_cy-with_flags : cpu_set_cy (with_flags c f) ≡ with_flags c (record f { cy = true })
  unfolding set_mask encode
  set_cy-with_flags = ap (λ (w : ℕ). record c { psw = w }) (omega (arith, or_cy (encode f), small))

  pub set_sat-with_flags : cpu_set_sat (with_flags c f) ≡ with_flags c (record f { sat = true })
  unfolding set_mask encode
  set_sat-with_flags =
      ap (λ (w : ℕ). record c { psw = w }) (omega (arith, or_sat (encode f), small))

  pub clr_z-with_flags : Fits f → cpu_clr_z (with_flags c f) ≡ with_flags c (record f { z = false })
  unfolding clr_mask encode
  clr_z-with_flags h =
      ap (λ (w : ℕ). record c { psw = w })
        (omega (arith, and_z (encode f) (omega (arith, small)), small))

  pub clr_s-with_flags : Fits f → cpu_clr_s (with_flags c f) ≡ with_flags c (record f { s = false })
  unfolding clr_mask encode
  clr_s-with_flags h =
      ap (λ (w : ℕ). record c { psw = w })
        (omega (arith, and_s (encode f) (omega (arith, small)), small))

  pub clr_ov-with_flags :
      Fits f → cpu_clr_ov (with_flags c f) ≡ with_flags c (record f { ov = false })
  unfolding clr_mask encode
  clr_ov-with_flags h =
      ap (λ (w : ℕ). record c { psw = w })
        (omega (arith, and_ov (encode f) (omega (arith, small)), small))

  pub clr_cy-with_flags :
      Fits f → cpu_clr_cy (with_flags c f) ≡ with_flags c (record f { cy = false })
  unfolding clr_mask encode
  clr_cy-with_flags h =
      ap (λ (w : ℕ). record c { psw = w })
        (omega (arith, and_cy (encode f) (omega (arith, small)), small))

  pub isset_z-with_flags : cpu_isset_z (with_flags c f) ≡ f.z
  unfolding isset_mask encode
  isset_z-with_flags = ground (arith, bit_and_single 0 (encode f), small)

  pub isset_s-with_flags : cpu_isset_s (with_flags c f) ≡ f.s
  unfolding isset_mask encode
  isset_s-with_flags = ground (arith, bit_and_single 1 (encode f), small)

  pub isset_ov-with_flags : cpu_isset_ov (with_flags c f) ≡ f.ov
  unfolding isset_mask encode
  isset_ov-with_flags = ground (arith, bit_and_single 2 (encode f), small)

  pub isset_cy-with_flags : cpu_isset_cy (with_flags c f) ≡ f.cy
  unfolding isset_mask encode
  isset_cy-with_flags = ground (arith, bit_and_single 3 (encode f), small)

  pub isset_sat-with_flags : cpu_isset_sat (with_flags c f) ≡ f.sat
  unfolding isset_mask encode
  isset_sat-with_flags = ground (arith, bit_and_single 4 (encode f), small)

pub ruleset reads = (
  isset_z-with_flags, isset_s-with_flags, isset_ov-with_flags, isset_cy-with_flags,
  isset_sat-with_flags,
)
