-- ===== src/Cpu/Logic/Tests.antt =====
-- The theorem about the logical operations at one state.
use athrill_target_rh850f1x.Base.{◌≡◌, arith, refl}
use athrill_target_rh850f1x.Cpu.State.{ok, advance}
use athrill_target_rh850f1x.Cpu.Psw.Flags.{with_flags}
use athrill_target_rh850f1x.Cpu.Logic.{
  op_exec_or, op_exec_and, op_exec_xor, op_exec_not, op_exec_tst,
}
use athrill_target_rh850f1x.Cpu.Logic.Effects.{logic_effects, logic_result, logic_flags}
use athrill_target_rh850f1x.Cpu.Tests.{core, flags, one_two}

logic_effects_example :
    (op_exec_or one_two (with_flags core flags) ≡ logic_result one_two core flags 0xffff_fffd)
    × (op_exec_and one_two (with_flags core flags) ≡ logic_result one_two core flags 0x8000_0001)
    × (op_exec_xor one_two (with_flags core flags) ≡ logic_result one_two core flags 0x7fff_fffc)
    × (op_exec_not one_two (with_flags core flags) ≡ logic_result one_two core flags 6)
    × (op_exec_tst one_two (with_flags core flags)
        ≡ (ok, advance 2 (with_flags core (logic_flags flags 0x8000_0001))))
logic_effects_example =
    logic_effects one_two core flags (omega arith) (omega arith) (omega arith) refl
