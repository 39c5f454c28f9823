-- ===== src/Cpu/Memory/Bus.antt =====
-- The bus of a core: the functions that the loads and stores call and that are not part of this
-- repository, as an interface.
use athrill_target_rh850f1x.Base.{
  ℕ, ◌%◌, ◌+◌, ◌^◌, ◌<◌, ◌≡◌, refl, Bool, true, false, Option, none, some, word32, signed8,
  signed16,
}
use athrill_target_rh850f1x.Cpu.State.{CpuRegister, Status, ok, failed, write_reg, advance}

-- `M` is the state of the memories and devices behind the bus. A read gives its value, or `none`
-- for an error; a write gives `true` for STD_E_OK. `stack_over` is
-- cpu_may_store_on_stack_overflow.
pub record Bus (M : Type 0) : Type 0 where
  pub get_data8 : M → ℕ → M × Option ℕ
  pub get_data16 : M → ℕ → M × Option ℕ
  pub get_data32 : M → ℕ → M × Option ℕ
  pub put_data8 : M → ℕ → ℕ → M × Bool
  pub put_data16 : M → ℕ → ℕ → M × Bool
  pub put_data32 : M → ℕ → ℕ → M × Bool
  pub stack_over : M → ℕ → ℕ → Bool

-- What the bus documents of a memory: what a write stored is what the same address then reads.
pub record Stores {M : Type 0} (b : Bus M) : Type 0 where
  pub stores8 :
      (m : M) (a v : ℕ)
      → v < 2 ^ 8
      → (b.put_data8 m a v).1 ≡ true
      → (b.get_data8 (b.put_data8 m a v).0 a).1 ≡ some v
  pub stores16 :
      (m : M) (a v : ℕ)
      → v < 2 ^ 16
      → (b.put_data16 m a v).1 ≡ true
      → (b.get_data16 (b.put_data16 m a v).0 a).1 ≡ some v
  pub stores32 :
      (m : M) (a v : ℕ)
      → v < 2 ^ 32
      → (b.put_data32 m a v).1 ≡ true
      → (b.get_data32 (b.put_data32 m a v).0 a).1 ≡ some v

-- An operation's end: its status, the registers, and what is behind the bus.
abbrev pub Result : Type 0 → Type 0
Result M = Status × CpuRegister × M

-- CPU_REG_SP, CPU_REG_EP
abbrev pub cpu_reg_sp : ℕ
cpu_reg_sp = 3

abbrev pub cpu_reg_ep : ℕ
cpu_reg_ep = 30

module _ {M : Type 0} where
  -- `if (err != STD_E_OK) return -1;` after a read into `value`, and else what follows
  unfoldable pub after_get : CpuRegister → M × Option ℕ → (M → ℕ → Result M) → Result M
  after_get c (m, none) next = (failed, c, m)
  after_get c (m, some value) next = next m value

  -- the same after a write
  unfoldable pub after_put : CpuRegister → M × Bool → (M → Result M) → Result M
  after_put c (m, false) next = (failed, c, m)
  after_put c (m, true) next = next m

  pub after_get-some :
      (c : CpuRegister) (p : M × Option ℕ) (next : M → ℕ → Result M) (v : ℕ)
      → p.1 ≡ some v
      → after_get c p next ≡ next p.0 v
  unfolding after_get
  after_get-some c (m, some x) next v h = cc
  after_get-some c (m, none) next v h = cc

  pub after_put-true :
      (c : CpuRegister) (p : M × Bool) (next : M → Result M)
      → p.1 ≡ true
      → after_put c p next ≡ next p.0
  unfolding after_put
  after_put-true c (m, true) next h = refl
  after_put-true c (m, false) next h = cc

  -- cpu->reg.r[i] = v; cpu->reg.pc += n; return 0
  abbrev pub loaded : CpuRegister → ℕ → ℕ → ℕ → M → Result M
  loaded c i v n m = (ok, advance n (write_reg c i v), m)

-- A sint8 or sint16 into a register of 32 bits.
abbrev pub sext8 : ℕ → ℕ
sext8 v = word32 (signed8 v)

abbrev pub sext16 : ℕ → ℕ
sext16 v = word32 (signed16 v)

-- r + disp, in 32 bits
abbrev pub address : ℕ → ℕ → ℕ
address r disp = (r + disp) % 2 ^ 32
