-- ===== src/Cpu/State.antt =====
-- The register state of a core (src/cpu/target_cpu.h), and the decoded operands of the
-- instruction formats that the operations take.
pub use athrill_target_rh850f1x.Dec.Format.{
  OpCodeFormatType1, OpCodeFormatType2, OpCodeFormatType3, OpCodeFormatType5, OpCodeFormatType6,
  OpCodeFormatType9, OpCodeFormatType11, OpCodeFormatType12,
}
use athrill_target_rh850f1x.Base.{ℕ, ◌+◌, ◌%◌, ◌^◌, ◌<◌, List, get_or, set}

-- CPU_GREG_NUM
abbrev pub greg_num : ℕ
greg_num = 32

-- A word of 32 bits.
abbrev pub Word : ℕ → Type 0
Word w = w < 2 ^ 32

-- The part of CpuRegisterType that the data operations use: every register is its pattern of 32
-- bits, and of the system registers `psw` is sys_get_cpu_base(reg)->r[SYS_REG_PSW].
pub record CpuRegister : Type 0 where
  pub pc : ℕ
  pub r : List ℕ
  pub psw : ℕ

-- How an operation ends: it returns 0, or -1, or it makes a division that C leaves undefined.
pub data Status : Type 0 where
  ok : Status
  failed : Status
  fault : Status

-- cpu->reg.r[i]; each operation tests `i` against CPU_GREG_NUM.
abbrev pub read_reg : CpuRegister → ℕ → ℕ
read_reg c i = get_or c.r i 0

-- cpu->reg.r[i] = v
abbrev pub write_reg : CpuRegister → ℕ → ℕ → CpuRegister
write_reg c i v = record c { r = set c.r i v }

-- cpu->reg.pc += n
abbrev pub advance : ℕ → CpuRegister → CpuRegister
advance n c = record c { pc = (c.pc + n) % 2 ^ 32 }
