-- ===== src/Dec/Parse/Format.antt =====
-- What op_parse leaves behind: the format of a parsed operation, and its decoded operands.
use athrill_target_rh850f1x.Base.{◌≡◌, ◌≢◌, Option, none, some, arith, Bool-cases, inl, inr}
use athrill_target_rh850f1x.Dec.Format.{OpDecodedCode, unknown}
use athrill_target_rh850f1x.Dec.CodeId.{OpCodeId}
use athrill_target_rh850f1x.Dec.CodeFormat.{code_format}
use athrill_target_rh850f1x.Dec.Types.{Code, OperationCode}
use athrill_target_rh850f1x.Dec.Decode.{op_decoder}
use athrill_target_rh850f1x.Dec.Parse.{
  is_extend, extend_index, base_index, parse_code, decode_op, op_parse,
}
use athrill_target_rh850f1x.Dec.Parse.Table.{op_parse_base_code_table, op_parse_extend_code_table}
use athrill_target_rh850f1x.Dec.Parse.Agree.{
  Agrees, get_or-Agrees, op_parse_base_code_table-EachAgrees, op_parse_extend_code_table-EachAgrees,
}

parse_code-Agrees : (code : Code) → Agrees (parse_code code)
unfolding parse_code
parse_code-Agrees code = elim (Bool-cases (is_extend code)) [
  | inl ext ↦ rw ext (
      get_or-Agrees op_parse_extend_code_table code (extend_index code)
        (op_parse_extend_code_table-EachAgrees code))
  | inr base ↦ rw base (
      get_or-Agrees op_parse_base_code_table code (base_index code)
        (op_parse_base_code_table-EachAgrees code))
]

code_format-known : (c : OpCodeId) → code_format c ≢ unknown
unfolding code_format
code_format-known c e = ground arith

decode_op-format :
    (p : Option OperationCode) (code : Code) (d : OpDecodedCode) (o : OperationCode)
    → Agrees p
    → (decode_op p code d).0 ≡ some o
    → (o.format_id ≡ code_format o.code_id)
      × ((decode_op p code d).1 ≡ op_decoder (code_format o.code_id) code d)
unfolding decode_op
decode_op-format none code d o agrees e = cc
decode_op-format (some q) code d o agrees e = (cc, cc)

-- If `op_parse` gives an operation then its format is that of its name, which has a decoder, and the
-- operands are those that this decoder wrote.
pub op_parse_format :
    (code : Code) (d : OpDecodedCode) (o : OperationCode)
    → (op_parse code d).0 ≡ some o
    → (o.format_id ≡ code_format o.code_id)
      × (code_format o.code_id ≢ unknown)
      × ((op_parse code d).1 ≡ op_decoder (code_format o.code_id) code d)
unfolding op_parse
op_parse_format code d o e =
    let all = decode_op-format (parse_code code) code d o (parse_code-Agrees code) e in
    (all.0, code_format-known o.code_id, all.1)
