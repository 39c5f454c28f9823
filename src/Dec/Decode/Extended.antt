-- ===== src/Dec/Decode/Extended.antt =====
-- The decoders of the formats 9 to 14 and F (src/cpu/cpu_dec/op_dec.c). `w0`, `w1` and `w2` of `code` are the half words
-- code[0], code[1] and code[2].
use athrill_target_rh850f1x.Base.{ℕ, bit_and, ◌==◌, not, if◌then◌else◌, List, set, replicate}
use athrill_target_rh850f1x.Dec.Types.{Code}
use athrill_target_rh850f1x.Dec.Format.{OpDecodedCode}
use athrill_target_rh850f1x.Dec.Types.{field}

unfoldable pub op_decode9 : Code → OpDecodedCode → OpDecodedCode
op_decode9 code d =
    let tmp1 = field code.w0 0 0xffff in
    let tmp2 = field code.w1 0 0xffff in
    record d {
      type9 = record {
        opcode = field tmp1 5 0x3f;
        sub = field tmp2 5 0x3f;
        gen = bit_and tmp1 0x1f;
        reg2 = field tmp1 11 0x1f;
        rfu2 = field tmp2 11 0x1f;
        rfu1 = field tmp2 1 0xf;
      };
    }

unfoldable pub op_decode10 : Code → OpDecodedCode → OpDecodedCode
op_decode10 code d =
    let tmp2 = field code.w1 0 0xffff in
    record d {
      type10 = record {
        opcode = field code.w0 5 0x3f;
        gen1 = field code.w0 13 0x7;
        gen2 = field code.w0 0 0x1f;
        sub = field tmp2 5 0x3f;
        rfu1 = field code.w0 11 0x3;
        rfu2 = field tmp2 11 0x1f;
        rfu3 = field tmp2 1 0xf;
      };
    }

unfoldable pub op_decode11 : Code → OpDecodedCode → OpDecodedCode
op_decode11 code d =
    let tmp2 = field code.w1 0 0xffff in
    record d {
      type11 = record {
        opcode = field code.w0 5 0x3f;
        reg1 = field code.w0 0 0x1f;
        reg2 = field code.w0 11 0x1f;
        reg3 = field tmp2 11 0x1f;
        sub1 = field tmp2 5 0x3f;
        sub2 = field tmp2 1 0x1;
        rfu = field tmp2 2 0x7;
      };
    }

unfoldable pub op_decode12 : Code → OpDecodedCode → OpDecodedCode
op_decode12 code d =
    let tmp2 = field code.w1 0 0xffff in
    record d {
      type12 = record {
        opcode = field code.w0 5 0x3f;
        reg2 = field code.w0 11 0x1f;
        reg3 = field tmp2 11 0x1f;
        imml = field code.w0 0 0x1f;
        immh = field tmp2 2 0x1f;
        sub1 = field tmp2 7 0xf;
        sub2 = field tmp2 1 0x1;
      };
    }

-- decoded_code->type13.list, all 0 at first and then one entry for each bit of the register list
unfoldable pub register_list : ℕ → ℕ → List ℕ
register_list t1 t2 =
    let l = replicate 32 0 in
    let l = set l 30 (if not (t1 == 0) then 1 else 0) in
    let l = set l 31 (if not (bit_and t2 0x1 == 0) then 1 else 0) in
    let l = set l 29 (if not (bit_and t2 0x2 == 0) then 1 else 0) in
    let l = set l 28 (if not (bit_and t2 0x4 == 0) then 1 else 0) in
    let l = set l 23 (if not (bit_and t2 0x8 == 0) then 1 else 0) in
    let l = set l 22 (if not (bit_and t2 0x10 == 0) then 1 else 0) in
    let l = set l 21 (if not (bit_and t2 0x20 == 0) then 1 else 0) in
    let l = set l 20 (if not (bit_and t2 0x40 == 0) then 1 else 0) in
    let l = set l 27 (if not (bit_and t2 0x80 == 0) then 1 else 0) in
    let l = set l 26 (if not (bit_and t2 0x100 == 0) then 1 else 0) in
    let l = set l 25 (if not (bit_and t2 0x200 == 0) then 1 else 0) in
    let l = set l 24 (if not (bit_and t2 0x400 == 0) then 1 else 0) in l

unfoldable pub op_decode13 : Code → OpDecodedCode → OpDecodedCode
unfolding register_list
op_decode13 code d =
    let tmp2 = field code.w1 0 0xffff in
    let t1 = bit_and code.w0 0x1 in
    let t2 = field code.w1 5 0x7ff in
    record d {
      type13 = record {
        opcode = field code.w0 6 0x1f;
        imm = field code.w0 1 0x1f;
        list = register_list t1 t2;
        gen = field tmp2 0 0x1f;
        rfu = field code.w0 11 0x1f;
      };
    }

unfoldable pub op_decode14 : Code → OpDecodedCode → OpDecodedCode
op_decode14 code d = record d {
  type14 = record {
    sub1 = field code.w0 11 0x1f;
    opcode = field code.w0 5 0x3f;
    reg1 = field code.w0 0 0x1f;
    reg3 = field code.w1 11 0x1f;
    disp_low = field code.w1 4 0x7f;
    sub2 = field code.w1 0 0xf;
    disp_high = code.w2;
  };
}

unfoldable pub op_decode_f : Code → OpDecodedCode → OpDecodedCode
op_decode_f code d = record d {
  type_f = record {
    reg2 = field code.w0 11 0x1f;
    opcode = field code.w0 5 0x3f;
    reg1 = field code.w0 0 0x1f;
    reg3 = field code.w1 11 0x1f;
    subopcode = field code.w1 0 0x3ff;
  };
}
