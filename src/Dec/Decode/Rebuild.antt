-- ===== src/Dec/Decode/Rebuild.antt =====
-- What the decoders read: the fields of a format against the code words they come from.
use athrill_target_rh850f1x.Base.{
  ℕ, ◌+◌, ◌*◌, ◌/◌, ◌%◌, ◌^◌, ◌<◌, ◌≡◌, refl, ap, bit_and, arith, bit_and_mask, bit_or_fields,
  signed16,
}
use athrill_target_rh850f1x.Dec.Fields.{field_lem}
use athrill_target_rh850f1x.Dec.Types.{Code, field}
use athrill_target_rh850f1x.Dec.Format.{
  OpCodeFormatId, OpDecodedCode, format_1, format_2, format_3, format_4, format_5, format_6,
  format_7, format_8, format_9, format_10, format_11, format_12, format_13, format_14, format_f,
  unknown,
}
use athrill_target_rh850f1x.Dec.Decode.{op_decoder}

-- Three words of 16 bits.
abbrev pub Words : Code → Type 0
Words c = (c.w0 < 2 ^ 16) × (c.w1 < 2 ^ 16) × (c.w2 < 2 ^ 16)

-- The first word put together from three fields: bits 15-11, 10-5 and 4-0.
abbrev pub word0 : ℕ → ℕ → ℕ → ℕ
word0 high opcode low = high * 2 ^ 11 + opcode * 2 ^ 5 + low

-- The fields of the format tell the code words: all of them, but for bit 16 in the formats 9 to 12,
-- the register list and bits 16 to 20 apart in format 13, and bit 26 in format F. In format 10,
-- `rfu2` holds bits 31-27 and `rfu3` bits 20-17, while the comments of op_format.h have the two the
-- other way round.
abbrev pub Rebuilds : OpCodeFormatId → Code → OpDecodedCode → Type 0
Rebuilds format_1 c d = let t = d.type1 in c.w0 ≡ word0 t.reg2 t.opcode t.reg1
Rebuilds format_2 c d = let t = d.type2 in c.w0 ≡ word0 t.reg2 t.opcode t.imm
Rebuilds format_3 c d =
    let t = d.type3 in
    c.w0 ≡ t.disp / 2 ^ 3 * 2 ^ 11 + t.opcode * 2 ^ 7 + t.disp % 2 ^ 3 * 2 ^ 4 + t.cond
Rebuilds format_4 c d =
    let t = d.type4_1 in
    let u = d.type4_2 in
    (c.w0 ≡ t.reg2 * 2 ^ 11 + t.opcode * 2 ^ 7 + t.disp * 2 + t.gen)
    × (c.w0 ≡ u.reg2 * 2 ^ 11 + u.opcode * 2 ^ 4 + u.disp)
Rebuilds format_5 c d =
    let t = d.type5 in
    (c.w0 ≡ t.reg2 * 2 ^ 11 + t.opcode * 2 ^ 6 + t.disp / 2 ^ 16) × (c.w1 ≡ t.disp % 2 ^ 16)
Rebuilds format_6 c d = let t = d.type6 in (c.w0 ≡ word0 t.reg2 t.opcode t.reg1) × (c.w1 ≡ t.imm)
Rebuilds format_7 c d =
    let t = d.type7 in (c.w0 ≡ word0 t.reg2 t.opcode t.reg1) × (c.w1 ≡ t.disp * 2 + t.gen)
Rebuilds format_8 c d =
    let t = d.type8 in
    (c.w0 ≡ t.sub * 2 ^ 14 + word0 t.bit t.opcode t.reg1) × (t.disp ≡ signed16 c.w1)
Rebuilds format_9 c d =
    let t = d.type9 in
    (c.w0 ≡ word0 t.reg2 t.opcode t.gen)
    × (c.w1 ≡ t.rfu2 * 2 ^ 11 + t.sub * 2 ^ 5 + t.rfu1 * 2 + c.w1 % 2)
Rebuilds format_10 c d =
    let t = d.type10 in
    (c.w0 ≡ t.gen1 * 2 ^ 13 + word0 t.rfu1 t.opcode t.gen2)
    × (c.w1 ≡ t.rfu2 * 2 ^ 11 + t.sub * 2 ^ 5 + t.rfu3 * 2 + c.w1 % 2)
Rebuilds format_11 c d =
    let t = d.type11 in
    (c.w0 ≡ word0 t.reg2 t.opcode t.reg1)
    × (c.w1 ≡ t.reg3 * 2 ^ 11 + t.sub1 * 2 ^ 5 + t.rfu * 2 ^ 2 + t.sub2 * 2 + c.w1 % 2)
Rebuilds format_12 c d =
    let t = d.type12 in
    (c.w0 ≡ word0 t.reg2 t.opcode t.imml)
    × (c.w1 ≡ t.reg3 * 2 ^ 11 + t.sub1 * 2 ^ 7 + t.immh * 2 ^ 2 + t.sub2 * 2 + c.w1 % 2)
Rebuilds format_13 c d =
    let t = d.type13 in
    (c.w0 ≡ t.rfu * 2 ^ 11 + t.opcode * 2 ^ 6 + t.imm * 2 + c.w0 % 2) × (t.gen ≡ c.w1 % 2 ^ 5)
Rebuilds format_14 c d =
    let t = d.type14 in
    (c.w0 ≡ word0 t.sub1 t.opcode t.reg1)
    × (c.w1 ≡ t.reg3 * 2 ^ 11 + t.disp_low * 2 ^ 4 + t.sub2)
    × (c.w2 ≡ t.disp_high)
Rebuilds format_f c d =
    let t = d.type_f in
    (c.w0 ≡ word0 t.reg2 t.opcode t.reg1)
    × (c.w1 ≡ t.reg3 * 2 ^ 11 + c.w1 / 2 ^ 10 % 2 * 2 ^ 10 + t.subopcode)
Rebuilds unknown c d = Unit

-- A field of the first word, and of the second.
word0_split : (w : ℕ) → w < 2 ^ 16 → w ≡ word0 (field w 11 0x1f) (field w 5 0x3f) (field w 0 0x1f)
word0_split w h = omega (arith, field_lem w 11 5, field_lem w 5 6, field_lem w 0 5)

word0_bare : (w : ℕ) → w < 2 ^ 16 → w ≡ word0 (field w 11 0x1f) (field w 5 0x3f) (bit_and w 0x1f)
word0_bare w h = omega (arith, field_lem w 11 5, field_lem w 5 6, bit_and_mask 5 w)

-- Of words of 16 bits, the fields that the decoder of a format writes put the code words together
-- again: all of them, but for bit 16 in the formats 9 to 12, the register list and bits 16 to 20
-- apart in format 13, and bit 26 in format F. In format 10 the decoder has rfu2 from bits 31-27 and
-- rfu3 from bits 20-17, the reverse of what op_format.h says.
pub op_decoder-Rebuilds :
    (f : OpCodeFormatId) (code : Code) (d : OpDecodedCode)
    → Words code
    → Rebuilds f code (op_decoder f code d)
unfolding op_decoder
op_decoder-Rebuilds format_1 code d h = word0_split code.w0 h.0
op_decoder-Rebuilds format_2 code d h = word0_split code.w0 h.0
op_decoder-Rebuilds format_3 code d h =
    let w = field_lem code.w0 in
    omega (
      arith,
      w 11 5,
      w 4 3,
      w 7 4,
      w 0 4,
      bit_or_fields 3 (field code.w0 11 0x1f) (field code.w0 4 0x7) (omega (arith, w 4 3)),
    )
op_decoder-Rebuilds format_4 code d h =
    let w = field_lem code.w0 in
    (omega (arith, w 11 5, w 7 4, w 1 6, w 0 1), omega (arith, w 11 5, w 4 7, w 0 4))
op_decoder-Rebuilds format_5 code d h =
    let w = field_lem code.w0 in
    let v = field_lem code.w1 0 16 in
    let disp =
      bit_or_fields 16 (field code.w0 0 0x3f) (field code.w1 0 0xffff) (omega (arith, v)) in
    (omega (arith, w 11 5, w 6 5, w 0 6, v, disp), omega (arith, v, disp))
op_decoder-Rebuilds format_6 code d h =
    (word0_bare code.w0 h.0, omega (arith, field_lem code.w1 0 16))
op_decoder-Rebuilds format_7 code d h =
    let v = field_lem code.w1 0 16 in
    let u = field_lem (field code.w1 0 0xffff) in
    (word0_bare code.w0 h.0, omega (arith, v, u 1 15, bit_and_mask 1 (field code.w1 0 0xffff)))
op_decoder-Rebuilds format_8 code d h =
    let w = field_lem code.w0 in
    let v : field code.w1 0 0xffff ≡ code.w1 = omega (arith, field_lem code.w1 0 16) in
    (omega (arith, w 14 2, w 11 3, w 5 6, bit_and_mask 5 code.w0), ap signed16 v)
op_decoder-Rebuilds format_9 code d h =
    let w = field_lem (field code.w0 0 0xffff) in
    let u = field_lem (field code.w1 0 0xffff) in
    (
      omega (arith, field_lem code.w0 0 16, w 11 5, w 5 6, bit_and_mask 5 (field code.w0 0 0xffff)),
      omega (arith, field_lem code.w1 0 16, u 11 5, u 5 6, u 1 4),
    )
op_decoder-Rebuilds format_10 code d h =
    let w = field_lem code.w0 in
    let u = field_lem (field code.w1 0 0xffff) in
    (
      omega (arith, w 13 3, w 11 2, w 5 6, w 0 5),
      omega (arith, field_lem code.w1 0 16, u 11 5, u 5 6, u 1 4),
    )
op_decoder-Rebuilds format_11 code d h =
    let u = field_lem (field code.w1 0 0xffff) in
    (word0_split code.w0 h.0, omega (arith, field_lem code.w1 0 16, u 11 5, u 5 6, u 2 3, u 1 1))
op_decoder-Rebuilds format_12 code d h =
    let u = field_lem (field code.w1 0 0xffff) in
    (word0_split code.w0 h.0, omega (arith, field_lem code.w1 0 16, u 11 5, u 7 4, u 2 5, u 1 1))
op_decoder-Rebuilds format_13 code d h =
    let w = field_lem code.w0 in
    let u = field_lem (field code.w1 0 0xffff) in
    (omega (arith, w 11 5, w 6 5, w 1 5), omega (arith, field_lem code.w1 0 16, u 0 5))
op_decoder-Rebuilds format_14 code d h =
    let v = field_lem code.w1 in
    (word0_split code.w0 h.0, omega (arith, v 11 5, v 4 7, v 0 4), refl)
op_decoder-Rebuilds format_f code d h =
    let v = field_lem code.w1 in (word0_split code.w0 h.0, omega (arith, v 11 5, v 0 10))
op_decoder-Rebuilds unknown code d h = tt
