-- ===== src/Dec/Decode/Basic.antt =====
-- The decoders of the formats 1 to 8 (src/cpu/cpu_dec/op_dec.c). `w0`, `w1` and `w2` of `code` are the half words
-- code[0], code[1] and code[2].
use athrill_target_rh850f1x.Base.{◌*◌, ◌^◌, bit_and, bit_or, signed16}
use athrill_target_rh850f1x.Dec.Types.{Code}
use athrill_target_rh850f1x.Dec.Format.{OpDecodedCode}
use athrill_target_rh850f1x.Dec.Types.{field}

unfoldable pub op_decode1 : Code → OpDecodedCode → OpDecodedCode
op_decode1 code d = record d {
  type1 = record {
    opcode = field code.w0 5 0x3f;
    reg1 = field code.w0 0 0x1f;
    reg2 = field code.w0 11 0x1f;
  };
}

unfoldable pub op_decode2 : Code → OpDecodedCode → OpDecodedCode
op_decode2 code d = record d {
  type2 = record {
    opcode = field code.w0 5 0x3f;
    imm = field code.w0 0 0x1f;
    reg2 = field code.w0 11 0x1f;
  };
}

unfoldable pub op_decode3 : Code → OpDecodedCode → OpDecodedCode
op_decode3 code d =
    let tmp1 = field code.w0 11 0x1f in
    let tmp2 = field code.w0 4 0x7 in
    record d {
      type3 = record {
        opcode = field code.w0 7 0xf;
        disp = bit_or (tmp1 * 2 ^ 3) tmp2;
        cond = field code.w0 0 0xf;
      };
    }

unfoldable pub op_decode4 : Code → OpDecodedCode → OpDecodedCode
op_decode4 code d = record d {
  type4_1 = record {
    opcode = field code.w0 7 0xf;
    disp = field code.w0 1 0x3f;
    reg2 = field code.w0 11 0x1f;
    gen = field code.w0 0 0x1;
  };
  type4_2 = record {
    opcode = field code.w0 4 0x7f;
    disp = field code.w0 0 0xf;
    reg2 = field code.w0 11 0x1f;
  };
}

unfoldable pub op_decode5 : Code → OpDecodedCode → OpDecodedCode
op_decode5 code d =
    let tmp1 = field code.w0 0 0x3f in
    let tmp2 = field code.w1 0 0xffff in
    record d {
      type5 = record {
        opcode = field code.w0 6 0x1f;
        disp = bit_or (tmp1 * 2 ^ 16) tmp2;
        reg2 = field code.w0 11 0x1f;
      };
    }

unfoldable pub op_decode6 : Code → OpDecodedCode → OpDecodedCode
op_decode6 code d =
    let tmp2 = field code.w1 0 0xffff in
    record d {
      type6 = record {
        opcode = field code.w0 5 0x3f;
        imm = tmp2;
        reg1 = bit_and code.w0 0x1f;
        reg2 = field code.w0 11 0x1f;
      };
    }

unfoldable pub op_decode7 : Code → OpDecodedCode → OpDecodedCode
op_decode7 code d =
    let tmp2 = field code.w1 0 0xffff in
    record d {
      type7 = record {
        opcode = field code.w0 5 0x3f;
        disp = field tmp2 1 0x7fff;
        reg1 = bit_and code.w0 0x1f;
        reg2 = field code.w0 11 0x1f;
        gen = bit_and tmp2 0x1;
      };
    }

unfoldable pub op_decode8 : Code → OpDecodedCode → OpDecodedCode
op_decode8 code d =
    let tmp2 = signed16 (field code.w1 0 0xffff) in
    record d {
      type8 = record {
        opcode = field code.w0 5 0x3f;
        sub = field code.w0 14 0x3;
        bit = field code.w0 11 0x7;
        reg1 = bit_and code.w0 0x1f;
        disp = tmp2;
      };
    }
