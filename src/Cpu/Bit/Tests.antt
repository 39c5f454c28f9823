-- ===== src/Cpu/Bit/Tests.antt =====
-- The theorems about the searches for a bit at one state.
use athrill_target_rh850f1x.Base.{◌-◌, ◌/◌, ◌%◌, ◌^◌, ◌<◌, ◌≤◌, ◌≡◌, arith, refl, true, false}
use athrill_target_rh850f1x.Cpu.State.{
  ok, advance, read_reg, write_reg, CpuRegister, OpCodeFormatType9,
}
use athrill_target_rh850f1x.Cpu.Psw.Flags.{with_flags}
use athrill_target_rh850f1x.Cpu.Bit.{
  search_loop, op_exec_schlr_9, op_exec_sch1l_9, op_exec_sch1r_9, op_exec_sch0l_9, op_exec_sch0r_9,
}
use athrill_target_rh850f1x.Cpu.Bit.Effects.{sch1_finds, sch0_complement, sch_effects}
use athrill_target_rh850f1x.Cpu.Tests.{core, flags}

abbrev two_into_four : OpCodeFormatType9
two_into_four = record { opcode = 0x3f; sub = 0x1b; gen = 0; reg2 = 3; rfu2 = 4; rfu1 = 0 }

abbrev complement_core : CpuRegister
complement_core = write_reg core 3 0xffff_fffc

sch1_finds_example :
    let l = read_reg (op_exec_sch1l_9 two_into_four core).1 4 in
    let r = read_reg (op_exec_sch1r_9 two_into_four core).1 4 in
    (0 < l) × (l ≤ 32) × (3 / 2 ^ (32 - l) ≡ 1) × (0 < r) × (r ≤ 32) × (3 % 2 ^ r ≡ 2 ^ (r - 1))
sch1_finds_example = sch1_finds two_into_four core refl (omega arith) (omega arith) (omega arith)

sch0_complement_example :
    (read_reg (op_exec_sch0l_9 two_into_four core).1 4
      ≡ read_reg (op_exec_sch1l_9 two_into_four complement_core).1 4)
    × (read_reg (op_exec_sch0r_9 two_into_four core).1 4
        ≡ read_reg (op_exec_sch1r_9 two_into_four complement_core).1 4)
sch0_complement_example =
    sch0_complement two_into_four core complement_core refl refl (omega arith) (omega arith) refl

sch_effects_example : op_exec_schlr_9 true true two_into_four (with_flags core flags) ≡ (
  ok,
  advance 4 (
      with_flags
        (write_reg core 4 31)
        (record flags { cy = true; ov = false; s = false; z = false })),
)
unfolding search_loop
sch_effects_example = sch_effects two_into_four core flags true true (omega arith)
