-- ===== src/Cpu/Arith/Immediate/Tests.antt =====
-- The theorems about immediates at one state.
use athrill_target_rh850f1x.Base.{◌≡◌, arith}
use athrill_target_rh850f1x.Cpu.State.{ok, advance, write_reg, OpCodeFormatType2, OpCodeFormatType6}
use athrill_target_rh850f1x.Cpu.Psw.Flags.{with_flags}
use athrill_target_rh850f1x.Cpu.Arith.Format1.Effects.{sub_flags, add_flags}
use athrill_target_rh850f1x.Cpu.Arith.Immediate.{op_exec_cmp_2, op_exec_add_2, op_exec_addi}
use athrill_target_rh850f1x.Cpu.Arith.Immediate.Effects.{add_cmp_imm_effects, addi_effects}
use athrill_target_rh850f1x.Cpu.Tests.{core, flags}

-- -1 and r3
abbrev minus_one : OpCodeFormatType2
minus_one = record { opcode = 0x12; imm = 31; reg2 = 3 }

-- r3 - 2 into r4
abbrev minus_two : OpCodeFormatType6
minus_two = record { opcode = 0x30; imm = 0xfffe; reg1 = 3; reg2 = 4 }

add_cmp_imm_effects_example :
    (op_exec_cmp_2 minus_one (with_flags core flags)
      ≡ (ok, advance 2 (with_flags core (sub_flags flags 3 0xffff_ffff))))
    × (op_exec_add_2 minus_one (with_flags core flags)
        ≡ (ok, advance 2 (with_flags (write_reg core 3 2) (add_flags flags 3 0xffff_ffff))))
add_cmp_imm_effects_example =
    add_cmp_imm_effects minus_one core flags (omega arith) (omega arith) (omega arith) (omega arith)

addi_effects_example :
    op_exec_addi minus_two (with_flags core flags)
    ≡ (ok, advance 4 (with_flags (write_reg core 4 1) (add_flags flags 0xffff_fffe 3)))
addi_effects_example =
    addi_effects minus_two core flags (omega arith) (omega arith) (omega arith) (omega arith)
