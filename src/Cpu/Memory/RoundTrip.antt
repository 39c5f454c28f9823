-- ===== src/Cpu/Memory/RoundTrip.antt =====
-- What a load reads after a store to the same place.
use athrill_target_rh850f1x.Base.{
  ℕ, ◌*◌, ◌%◌, ◌^◌, ◌+◌, ◌<◌, ◌≡◌, ◌∙◌, refl, ap, if◌then◌else◌, ◌==◌, ◌&&◌, arith, Option, some,
  true, false, Bool, Bool-cases, inl, inr,
}
use native.Mathlib.Nat.{mod-eq_of_lt, mod-lt, one-le-pow}
use athrill_target_rh850f1x.Cpu.State.{CpuRegister, ok, failed, read_reg, write_reg, advance}
use athrill_target_rh850f1x.Dec.Format.{OpCodeFormatType7}
use athrill_target_rh850f1x.Cpu.Memory.Bus.{
  Bus, Stores, Result, cpu_reg_sp, after_get-some, after_put, loaded, sext8, sext16, address,
}
use athrill_target_rh850f1x.Cpu.Memory.Load.{op_exec_ldb, op_exec_ldhw}
use athrill_target_rh850f1x.Cpu.Memory.Store.{is_stack_over, op_exec_stb, op_exec_sthw}
use athrill_target_rh850f1x.Cpu.Memory.LoadEffects.{displacement, Fits7, load, load7_effects}
use athrill_target_rh850f1x.Cpu.Memory.StoreEffects.{store, store7_effects}

module _ {M : Type 0} where
  after_put-ok :
      (c : CpuRegister) (p : M × Bool) (next : M → Result M)
      → (after_put c p next).0 ≡ ok
      → (p.1 ≡ true) × (after_put c p next ≡ next p.0)
  unfolding after_put
  after_put-ok c (m, true) next h = (refl, refl)
  after_put-ok c (m, false) next h = cc

module _ {M : Type 0} (b : Bus M) (put : M → ℕ → ℕ → M × Bool) (get : M → ℕ → M × Option ℕ) where
  -- A store that succeeds went past the check of the stack, and the bus took it.
  store_ok :
      (w size base disp src : ℕ) (c : CpuRegister) (m : M)
      → (store b put w size base disp src c m).0 ≡ ok
      → let p = put m (address (read_reg c base) disp) (read_reg c src % 2 ^ w) in
        (p.1 ≡ true) × (store b put w size base disp src c m ≡ (ok, advance size c, p.0))
  store_ok w size base disp src c m h =
      elim (Bool-cases (base == cpu_reg_sp && is_stack_over b m c base disp)) [
        | inl over ↦ let never : failed ≡ ok = rw over at h in cc
        | inr free ↦
            let p = put m (address (read_reg c base) disp) (read_reg c src % 2 ^ w) in
            rw free (after_put-ok c p (λ m'. (ok, advance size c, m')) (rw free at h))
      ]

  -- A store that succeeds leaves the registers but for the pc, and what it stored is there to read.
  store-load :
      (w size base disp src dst : ℕ) (extend : ℕ → ℕ) (c : CpuRegister) (m : M)
      → ((m : M) (a v : ℕ) → v < 2 ^ w → (put m a v).1 ≡ true → (get (put m a v).0 a).1 ≡ some v)
      → (store b put w size base disp src c m).0 ≡ ok
      → let s = store b put w size base disp src c m in
        let l = load b get extend size base disp dst s.1 s.2 in
        (s.1 ≡ advance size c)
        × (l.0 ≡ ok)
        × (l.1 ≡ advance size (write_reg s.1 dst (extend (read_reg c src % 2 ^ w))))
  store-load w size base disp src dst extend c m law h =
      let addr = address (read_reg c base) disp in
      let v = read_reg c src % 2 ^ w in
      let done = store_ok w size base disp src c m h in
      let read = law m addr v (mod-lt _ (one-le-pow w 2 (omega arith))) done.0 in
      let c' = advance size c in
      let l =
        after_get-some c' (get (put m addr v).0 addr) (λ m' x. loaded c' dst (extend x) size m') v
          read in
      rw done.1 (refl, ap (λ (r : Result M). r.0) l, ap (λ (r : Result M). r.1) l)

module _ {M : Type 0} (b : Bus M) (laws : Stores b) where
  open laws use {stores8, stores16, stores32}

  -- If ST.B succeeds then LD.B with the same base and displacement reads the low byte of the stored
  -- register, sign-extended, into its own register, and changes no other.
  pub stb-ldb :
      (d : OpCodeFormatType7) (dst : ℕ) (c : CpuRegister) (m : M)
      → Fits7 d
      → dst < 32
      → read_reg c d.reg2 < 2 ^ 32
      → (op_exec_stb b d c m).0 ≡ ok
      → let s = op_exec_stb b d c m in
        let l = op_exec_ldb b (record d { reg2 = dst }) s.1 s.2 in
        (s.1 ≡ advance 4 c)
        × (l.0 ≡ ok)
        × (l.1 ≡ advance 4 (write_reg s.1 dst (sext8 (read_reg c d.reg2))))
  stb-ldb d dst c m h hd word done =
      let e = (store7_effects b d c m h word).0 in
      let disp = displacement 15 (d.disp * 2 + d.gen) in
      let s = store b b.put_data8 8 4 d.reg1 disp d.reg2 c m in
      let r = (load7_effects b (record d { reg2 = dst }) s.1 s.2 (h.0, hd, h.2, h.3)).0 in
      let all =
        store-load b b.put_data8 b.get_data8 8 4 d.reg1 disp d.reg2 dst sext8 c m stores8
          (rw e at done) in
      let low : read_reg c d.reg2 % 2 ^ 8 % 2 ^ 8 ≡ read_reg c d.reg2 % 2 ^ 8 = omega arith in
      rw (e, r) (rw low at all)

  -- If ST.H or ST.W succeeds then LD.H or LD.W with the same base, displacement and `gen` reads the
  -- low halfword of the stored register, sign-extended, or the whole of it.
  pub sthw-ldhw :
      (d : OpCodeFormatType7) (dst : ℕ) (c : CpuRegister) (m : M)
      → Fits7 d
      → dst < 32
      → read_reg c d.reg2 < 2 ^ 32
      → (op_exec_sthw b d c m).0 ≡ ok
      → let s = op_exec_sthw b d c m in
        let l = op_exec_ldhw b (record d { reg2 = dst }) s.1 s.2 in
        let v = read_reg c d.reg2 in
        (s.1 ≡ advance 4 c)
        × (l.0 ≡ ok)
        × (l.1 ≡ advance 4 (write_reg s.1 dst (if d.gen == 0 then sext16 v else v)))
  sthw-ldhw d dst c m h hd word done =
      let e = (store7_effects b d c m h word).1 in
      let disp = displacement 15 (d.disp * 2) in
      let v = read_reg c d.reg2 in
      elim (Bool-cases (d.gen == 0)) [
        | inl half ↦
            let s = store b b.put_data16 16 4 d.reg1 disp d.reg2 c m in
            let es : op_exec_sthw b d c m ≡ s = rw half at e in
            let l = load7_effects b (record d { reg2 = dst }) s.1 s.2 (h.0, hd, h.2, h.3) in
            let low : v % 2 ^ 16 % 2 ^ 16 ≡ v % 2 ^ 16 = omega arith in
            let all =
              store-load b b.put_data16 b.get_data16 16 4 d.reg1 disp d.reg2 dst sext16 c m stores16
                (rw es at done) in
            rw (es, l.3, half) (rw low at all)
        | inr full ↦
            let s = store b b.put_data32 32 4 d.reg1 disp d.reg2 c m in
            let es : op_exec_sthw b d c m ≡ s = rw full at e in
            let l = load7_effects b (record d { reg2 = dst }) s.1 s.2 (h.0, hd, h.2, h.3) in
            let all =
              store-load b b.put_data32 b.get_data32 32 4 d.reg1 disp d.reg2 dst (λ x. x) c m
                stores32 (rw es at done) in
            let whole = ap (λ x. advance 4 (write_reg s.1 dst x)) (mod-eq_of_lt word) in
            rw (es, l.3, full) (all.0, all.1, all.2 ∙ whole)
      ]
