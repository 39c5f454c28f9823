-- ===== src/Dec/Parse/Index.antt =====
-- The choice of the table and of its entry, as bits of the code words.
use athrill_target_rh850f1x.Base.{
  ◌+◌, ◌*◌, ◌/◌, ◌%◌, ◌^◌, ◌<◌, ◌≡◌, bit_and, arith, bit_and_mask, bit_and_high, bit_or_fields,
  bit_and_single, ap, ◌∙◌, length, ◌==◌, ◌&&◌,
}
use athrill_target_rh850f1x.Dec.Fields.{mask_shift}
use athrill_target_rh850f1x.Dec.Types.{Code, code_value}
use athrill_target_rh850f1x.Dec.Decode.Rebuild.{Words}
use athrill_target_rh850f1x.Dec.Parse.Table.{op_parse_base_code_table, op_parse_extend_code_table}
use athrill_target_rh850f1x.Dec.Parse.{is_extend, extend_index, base_index}

code_value_lem : (code : Code) → code.w0 < 2 ^ 16 → code_value code ≡ code.w1 * 2 ^ 16 + code.w0
code_value_lem code h = bit_or_fields 16 code.w1 code.w0 h

pub base_index_lem : (code : Code) → base_index code ≡ code.w0 / 2 ^ 5 % 2 ^ 6
unfolding base_index
base_index_lem code =
    rw
      (
        mask_shift code.w0 7 4,
        mask_shift code.w0 5 2,
        bit_or_fields 2 (code.w0 / 2 ^ 7 % 2 ^ 4) (code.w0 / 2 ^ 5 % 2 ^ 2) (omega arith),
      )
      (omega arith)

pub extend_index_lem :
    (code : Code) → code.w0 < 2 ^ 16 → extend_index code ≡ code.w1 / 2 ^ 5 % 2 ^ 6
unfolding extend_index
extend_index_lem code h =
    let v = code_value code in
    rw
      (
        mask_shift v 23 4,
        mask_shift v 21 2,
        bit_or_fields 2 (v / 2 ^ 23 % 2 ^ 4) (v / 2 ^ 21 % 2 ^ 2) (omega arith),
      )
      (omega (arith, code_value_lem code h))

pub is_extend_lem :
    (code : Code)
    → code.w0 < 2 ^ 16
    → is_extend code ≡ (code.w0 / 2 ^ 5 % 2 ^ 6 == 63 && code.w1 % 2 == 0)
unfolding is_extend
is_extend_lem code h =
    let up : bit_and code.w0 0x7e0 ≡ code.w0 / 2 ^ 5 % 2 ^ 6 * 2 ^ 5 =
      bit_and_high 5 code.w0 63 ∙ ap (λ k. k * 2 ^ 5) (bit_and_mask 6 (code.w0 / 2 ^ 5)) in
    let down : bit_and (code_value code) 0x10000 ≡ code_value code / 2 ^ 16 % 2 * 2 ^ 16 =
      bit_and_single 16 (code_value code) in
    ground (arith, up, down, code_value_lem code h)

-- For words of 16 bits the entry of each table is chosen by six bits, 10-5 of the first word or 10-5
-- of the second, and lies inside the table; the table for extended codes is taken where those bits
-- of the first word are all ones and the lowest bit of the second is 0.
pub table_index :
    (code : Code)
    → Words code
    → (is_extend code ≡ (code.w0 / 2 ^ 5 % 2 ^ 6 == 63 && code.w1 % 2 == 0))
      × (base_index code ≡ code.w0 / 2 ^ 5 % 2 ^ 6)
      × (base_index code < length op_parse_base_code_table)
      × (extend_index code ≡ code.w1 / 2 ^ 5 % 2 ^ 6)
      × (extend_index code < length op_parse_extend_code_table)
table_index code h =
    let base = base_index_lem code in
    let ext = extend_index_lem code h.0 in
    (is_extend_lem code h.0, base, omega (arith, base), ext, omega (arith, ext))
