-- ===== src/Cpu/Decoded/Tests.antt =====
-- The decoded operands of two words of ones.
use athrill_target_rh850f1x.Dec.Types.{Code}
use athrill_target_rh850f1x.Dec.Format.{format_1, format_2, format_11, zeros}
use athrill_target_rh850f1x.Dec.Decode.{op_decoder}
use athrill_target_rh850f1x.Cpu.Tests.{core}
use athrill_target_rh850f1x.Cpu.Decoded.{NoneFails, reg_reg, imm_reg, three_regs, decoded-NoneFails}

abbrev ones : Code
ones = record { w0 = 0xffff; w1 = 0xffff; w2 = 0 }

decoded-NoneFails_example :
    NoneFails reg_reg ((op_decoder format_1 ones zeros).type1) core
    × NoneFails imm_reg ((op_decoder format_2 ones zeros).type2) core
    × NoneFails three_regs ((op_decoder format_11 ones zeros).type11) core
decoded-NoneFails_example = decoded-NoneFails ones zeros core
