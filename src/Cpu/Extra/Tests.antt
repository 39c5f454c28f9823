-- ===== src/Cpu/Extra/Tests.antt =====
-- A run of the theorem about LOOP.
use athrill_target_rh850f1x.Base.{◌≡◌, arith}
use athrill_target_rh850f1x.Cpu.State.{ok, write_reg}
use athrill_target_rh850f1x.Dec.Format.{OpCodeFormatType7}
use athrill_target_rh850f1x.Cpu.Psw.Flags.{with_flags}
use athrill_target_rh850f1x.Cpu.Tests.{core, flags}
use athrill_target_rh850f1x.Cpu.Extra.{op_exec_loop_7}
use athrill_target_rh850f1x.Cpu.Extra.Loop.{loop_effects, loop_flags}

-- r3 holds 3.
abbrev back : OpCodeFormatType7
back = record { opcode = 0x37; reg1 = 3; reg2 = 0; disp = 8; gen = 1 }

loop_effects_example :
    op_exec_loop_7 back (with_flags core flags)
    ≡ (ok, record (write_reg (with_flags core (loop_flags flags 3)) 3 2) { pc = 0xf0 })
loop_effects_example = loop_effects back core flags (omega arith) (omega arith) (omega arith)
