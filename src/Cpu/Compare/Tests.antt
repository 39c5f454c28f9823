-- ===== src/Cpu/Compare/Tests.antt =====
-- A comparison and a branch on it at one state.
use athrill_target_rh850f1x.Base.{◌≡◌, arith}
use athrill_target_rh850f1x.Cpu.Psw.Flags.{with_flags}
use athrill_target_rh850f1x.Cpu.Cond.{op_exec_bcond_3}
use athrill_target_rh850f1x.Cpu.Arith.Format1.{op_exec_cmp_1}
use athrill_target_rh850f1x.Cpu.Compare.{lt}
use athrill_target_rh850f1x.Cpu.Compare.Jump.{branch, cmp-bcond}
use athrill_target_rh850f1x.Cpu.Tests.{core, flags, one_two}

cmp-bcond_example :
    let c' =
      (op_exec_bcond_3 (branch lt 0xfe) (op_exec_cmp_1 one_two (with_flags core flags)).1).1 in
    (c'.pc ≡ 0xfe) × (c'.r ≡ core.r)
cmp-bcond_example =
    cmp-bcond lt 0xfe one_two core flags (omega arith) (omega arith) (omega arith) (omega arith)
      (omega arith) (omega arith)
