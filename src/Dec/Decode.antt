-- ===== src/Dec/Decode.antt =====
-- OpDecoder and OpFormatSize, the tables by format of src/cpu/cpu_dec/op_dec.c.
mod Basic
mod Extended
pub mod Rebuild
use Basic.{
  op_decode1, op_decode2, op_decode3, op_decode4, op_decode5, op_decode6, op_decode7, op_decode8,
}
use Extended.{
  op_decode9, op_decode10, op_decode11, op_decode12, op_decode13, op_decode14, op_decode_f,
}
use athrill_target_rh850f1x.Base.{ℕ}
use athrill_target_rh850f1x.Dec.Types.{Code}
use athrill_target_rh850f1x.Dec.Format.{
  OpDecodedCode, OpCodeFormatId, format_1, format_2, format_3, format_4, format_5, format_6,
  format_7, format_8, format_9, format_10, format_11, format_12, format_13, format_14, format_f,
  unknown,
}

-- OpDecoder[format_id].decode, which always returns 0. The table ends before OP_CODE_FORMAT_UNKNOWN,
-- where C reads past it; the parser gives that format to no operation.
unfoldable pub op_decoder : OpCodeFormatId → Code → OpDecodedCode → OpDecodedCode
unfolding op_decode1 op_decode2 op_decode3 op_decode4 op_decode5 op_decode6 op_decode7 op_decode8
    op_decode9 op_decode10 op_decode11 op_decode12 op_decode13 op_decode14 op_decode_f
op_decoder format_1 code d = op_decode1 code d
op_decoder format_2 code d = op_decode2 code d
op_decoder format_3 code d = op_decode3 code d
op_decoder format_4 code d = op_decode4 code d
op_decoder format_5 code d = op_decode5 code d
op_decoder format_6 code d = op_decode6 code d
op_decoder format_7 code d = op_decode7 code d
op_decoder format_8 code d = op_decode8 code d
op_decoder format_9 code d = op_decode9 code d
op_decoder format_10 code d = op_decode10 code d
op_decoder format_11 code d = op_decode11 code d
op_decoder format_12 code d = op_decode12 code d
op_decoder format_13 code d = op_decode13 code d
op_decoder format_14 code d = op_decode14 code d
op_decoder format_f code d = op_decode_f code d
op_decoder unknown code d = d

-- OpFormatSize[format_id], the bytes of an instruction; it too ends before the last format.
abbrev pub op_format_size : OpCodeFormatId → ℕ
op_format_size format_1 = 2
op_format_size format_2 = 2
op_format_size format_3 = 2
op_format_size format_4 = 2
op_format_size format_5 = 4
op_format_size format_6 = 4
op_format_size format_7 = 4
op_format_size format_8 = 4
op_format_size format_9 = 4
op_format_size format_10 = 4
op_format_size format_11 = 4
op_format_size format_12 = 4
op_format_size format_13 = 4
op_format_size format_14 = 6
op_format_size format_f = 4
op_format_size unknown = 0
