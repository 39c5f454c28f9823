-- ===== src/Cpu/Memory/Tests.antt =====
-- Loads and stores on a small memory.
use athrill_target_rh850f1x.Base.{ℕ, ◌≡◌, refl, Bool, true, if◌then◌else◌, ◌==◌, some, arith}
use athrill_target_rh850f1x.Cpu.State.{OpCodeFormatType11, ok, write_reg, advance}
use athrill_target_rh850f1x.Cpu.Tests.{core, flags}
use athrill_target_rh850f1x.Cpu.Ops.Extend.{op_sign_extend, fill_ones}
use athrill_target_rh850f1x.Dec.Format.{
  OpCodeFormatType4_1, OpCodeFormatType4_2, OpCodeFormatType7, OpCodeFormatType14,
}
use athrill_target_rh850f1x.Cpu.Memory.Bus.{Bus, Stores, after_put, sext8, sext16}
use athrill_target_rh850f1x.Cpu.Memory.Load.{
  op_exec_sldb, op_exec_sldbu, op_exec_sldh, op_exec_sldhu, op_exec_sldw, op_exec_ldb, op_exec_ldbu,
  op_exec_ldhu, op_exec_ldhw,
}
use athrill_target_rh850f1x.Cpu.Memory.Load14.{
  op_exec_ld_b_14, op_exec_ld_bu_14, op_exec_ld_h_14, op_exec_ld_hu_14, op_exec_ld_w_14,
}
use athrill_target_rh850f1x.Cpu.Memory.Store.{
  op_exec_stb, op_exec_sthw, op_exec_st_b_14, op_exec_st_h_14, op_exec_st_w_14,
}
use athrill_target_rh850f1x.Cpu.Memory.LoadEffects.{
  displacement, load, load4_effects, load7_effects, load14_effects,
}
use athrill_target_rh850f1x.Cpu.Memory.StoreEffects.{store, store7_effects, store14_effects}
use athrill_target_rh850f1x.Cpu.Memory.Special.{op_exec_caxi}
use athrill_target_rh850f1x.Cpu.Memory.Special.Exchange.{caxi_exchanges, caxi_flags}
use athrill_target_rh850f1x.Cpu.Psw.Flags.{with_flags}
use athrill_target_rh850f1x.Cpu.Memory.RoundTrip.{stb-ldb, sthw-ldhw}

-- A memory of cells, with the stack checked against address 0x10.
abbrev Cells : Type 0
Cells = ℕ → ℕ

abbrev write_cell : Cells → ℕ → ℕ → Cells × Bool
write_cell m a v = (λ x. if x == a then v else m x, true)

abbrev cells : Bus Cells
cells = record {
  get_data8 = λ m a. (m, some (m a));
  get_data16 = λ m a. (m, some (m a));
  get_data32 = λ m a. (m, some (m a));
  put_data8 = write_cell;
  put_data16 = write_cell;
  put_data32 = write_cell;
  stack_over = λ m sp disp. sp == 0x10;
}

cells-Stores : Stores cells
cells-Stores = record {
  stores8 = λ m a v h done. ground arith;
  stores16 = λ m a v h done. ground arith;
  stores32 = λ m a v h done. ground arith;
}

abbrev empty : Cells
empty _ = 0x80

-- r2 at r1 - 4, as a byte, a halfword or a word
abbrev byte_at : OpCodeFormatType7
byte_at = record { opcode = 0x38; disp = 0x7ffe; reg1 = 1; reg2 = 2; gen = 0 }

abbrev word_at : OpCodeFormatType7
word_at = record { opcode = 0x39; disp = 0x7ffe; reg1 = 1; reg2 = 2; gen = 1 }

abbrev far_at : OpCodeFormatType14
far_at = record {
  sub1 = 0;
  opcode = 0x3c;
  reg1 = 1;
  reg3 = 2;
  disp_low = 5;
  sub2 = 5;
  disp_high = 1;
}

abbrev short_at : OpCodeFormatType4_1
short_at = record { opcode = 6; disp = 3; reg2 = 2; gen = 1 }

abbrev short_unsigned : OpCodeFormatType4_2
short_unsigned = record { opcode = 6; disp = 3; reg2 = 2 }

stored : (op_exec_stb cells byte_at core empty).0 ≡ ok
unfolding op_exec_stb op_sign_extend fill_ones after_put
stored = refl

stored_word : (op_exec_sthw cells word_at core empty).0 ≡ ok
unfolding op_exec_sthw op_sign_extend fill_ones after_put
stored_word = refl

load7_effects_example :
    let even = displacement 15 0xfffc in
    (op_exec_ldb cells byte_at core empty ≡ load cells cells.get_data8 sext8 4 1 even 2 core empty)
    × (op_exec_ldbu cells byte_at core empty
        ≡ load cells cells.get_data8 (λ v. v) 4 1 even 2 core empty)
    × (op_exec_ldhu cells byte_at core empty
        ≡ load cells cells.get_data16 (λ v. v) 4 1 even 2 core empty)
    × (op_exec_ldhw cells byte_at core empty
        ≡ load cells cells.get_data16 sext16 4 1 even 2 core empty)
load7_effects_example =
    load7_effects cells byte_at core empty (omega arith, omega arith, omega arith, omega arith)

load14_effects_example :
    let disp = displacement 22 0x85 in
    (op_exec_ld_b_14 cells far_at core empty
      ≡ load cells cells.get_data8 sext8 6 1 disp 2 core empty)
    × (op_exec_ld_bu_14 cells far_at core empty
        ≡ load cells cells.get_data8 (λ v. v) 6 1 disp 2 core empty)
    × (op_exec_ld_h_14 cells far_at core empty
        ≡ load cells cells.get_data16 sext16 6 1 disp 2 core empty)
    × (op_exec_ld_hu_14 cells far_at core empty
        ≡ load cells cells.get_data16 (λ v. v) 6 1 disp 2 core empty)
    × (op_exec_ld_w_14 cells far_at core empty
        ≡ load cells cells.get_data32 (λ v. v) 6 1 disp 2 core empty)
load14_effects_example =
    load14_effects cells far_at core empty (omega arith, omega arith, omega arith, omega arith)

load4_effects_example :
    (op_exec_sldb cells short_at core empty ≡ load cells cells.get_data8 sext8 2 30 7 2 core empty)
    × (op_exec_sldh cells short_at core empty
        ≡ load cells cells.get_data16 sext16 2 30 14 2 core empty)
    × (op_exec_sldw cells short_at core empty
        ≡ load cells cells.get_data32 (λ v. v) 2 30 12 2 core empty)
    × (op_exec_sldbu cells short_unsigned core empty
        ≡ load cells cells.get_data8 (λ v. v) 2 30 3 2 core empty)
    × (op_exec_sldhu cells short_unsigned core empty
        ≡ load cells cells.get_data16 (λ v. v) 2 30 6 2 core empty)
load4_effects_example =
    load4_effects cells short_at short_unsigned core empty (omega arith, omega arith, omega arith)
      (omega arith) (omega arith)

store7_effects_example :
    let even = displacement 15 0xfffc in
    (op_exec_stb cells byte_at core empty ≡ store cells cells.put_data8 8 4 1 even 2 core empty)
    × (op_exec_sthw cells byte_at core empty
        ≡ store cells cells.put_data16 16 4 1 even 2 core empty)
store7_effects_example =
    store7_effects cells byte_at core empty (omega arith, omega arith, omega arith, omega arith)
      (omega arith)

store14_effects_example :
    let disp = displacement 22 0x85 in
    (op_exec_st_b_14 cells far_at core empty ≡ store cells cells.put_data8 8 6 1 disp 2 core empty)
    × (op_exec_st_h_14 cells far_at core empty
        ≡ store cells cells.put_data16 16 6 1 disp 2 core empty)
    × (op_exec_st_w_14 cells far_at core empty
        ≡ store cells cells.put_data32 32 6 1 disp 2 core empty)
store14_effects_example =
    store14_effects cells far_at core empty (omega arith, omega arith, omega arith, omega arith)
      (omega arith)

stb-ldb_example :
    let s = op_exec_stb cells byte_at core empty in
    let l = op_exec_ldb cells (record byte_at { reg2 = 4 }) s.1 s.2 in
    (s.1 ≡ advance 4 core) × (l.0 ≡ ok) × (l.1 ≡ advance 4 (write_reg s.1 4 5))
stb-ldb_example =
    stb-ldb cells cells-Stores byte_at 4 core empty
      (omega arith, omega arith, omega arith, omega arith) (omega arith) (omega arith) stored

sthw-ldhw_example :
    let s = op_exec_sthw cells word_at core empty in
    let l = op_exec_ldhw cells (record word_at { reg2 = 4 }) s.1 s.2 in
    (s.1 ≡ advance 4 core) × (l.0 ≡ ok) × (l.1 ≡ advance 4 (write_reg s.1 4 0x8000_0005))
sthw-ldhw_example =
    sthw-ldhw cells cells-Stores word_at 4 core empty
      (omega arith, omega arith, omega arith, omega arith) (omega arith) (omega arith) stored_word

-- [r1], r2, r3
abbrev exchange : OpCodeFormatType11
exchange = record { opcode = 0x3f; reg1 = 1; reg2 = 2; reg3 = 3; sub1 = 0; sub2 = 0; rfu = 0 }

abbrev fives : Cells
fives _ = 5

caxi_exchanges_example : op_exec_caxi cells exchange (with_flags core flags) fives ≡ (
  ok,
  advance 4 (write_reg (with_flags core (caxi_flags flags 0x8000_0005 5)) 3 5),
  (write_cell fives 0xffff_fff8 3).0,
)
caxi_exchanges_example =
    caxi_exchanges cells exchange core flags fives 5 (omega arith) (omega arith) (omega arith) refl
      refl
