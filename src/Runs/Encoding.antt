-- ===== src/Runs/Encoding.antt =====
-- Runs of the encoder of instructions.
use lua2wasm.Prelude.{codes, String, [], ◌∷◌, none, some, ◌≡◌, refl, arith}
use lua2wasm.Wat.Reader.{SExpr, no_kids, kid, head}
use lua2wasm.Wat.Encode.{
  Ctx, Encoder, done, pure, fail, ◌>>=◌, branch, on_option, put_bytes, put, written, uleb_bytes,
  sleb_bytes, put_uleb, put_sleb, same, same_name, next_of, atom_text, has_head, is_name,
  behind_head, number,
}
use lua2wasm.Wat.Encode.Ops.{
  Floats, find_op, among, plain_imm_count, resolve_local, resolve_index, find_label, label_depth,
  resolve_label,
}
use lua2wasm.Wat.Encode.Types.{
  find_name, index_of, find_byte, blocktype_loop, parse_blocktype, emit_blocktype,
}
use lua2wasm.Wat.Encode.Variables.{
  operands, literal, encode_const, with_index, encode_variable, encode_call, encode_throw,
  encode_branch,
}
use lua2wasm.Wat.Encode.Gc.{encode_ref, encode_struct, encode_array, encode_plain_op}
use lua2wasm.Wat.Encode.Control.{
  fc_push_label, drop_last, fc_pop_label, transfers, take_imms, count_kids, take_label,
  encode_plain, seq_loop, encode_seq, encode_block_body, encode_block, encode_control,
  flow_unreachable, last_unreachable,
}
use lua2wasm.Freestanding.Mem.{strcmp}
use lua2wasm.Wat.Leb.{buf_uleb, uleb_loop, buf_sleb, sleb_loop}
use lua2wasm.Wat.Buf.{buf_byte, buf_reserve, buf_init, store}
use lua2wasm.Wat.Integer.{parse_uint, digits, signed, decimal_loop}
use lua2wasm.Wat.Encode.Instr.{encode_instr, encode_op, encode_node}
use lua2wasm.Wat.Encode.Grows.{Returns}
use lua2wasm.Wat.Encode.Operands.{size, size_kids}
use lua2wasm.Wat.Encode.Total.{encode_instr-Returns}

abbrev word : String → SExpr
word s = SExpr.atom (codes s) 0

abbrev floats_stub : Floats
floats_stub = record { strtod = λ s. some 0; narrow = λ d. 0 }

abbrev bare : Ctx
bare = record {
  src = [];
  func_names = some (codes "$f") ∷ [];
  global_names = [];
  tag_names = [];
  data_names = [];
  decls = [];
  func_remap = none;
  global_remap = none;
  sig_remap = none;
}

abbrev start : Encoder
start = record { labels = []; sigs = []; out = [] }

-- (block $out (br $out (i32.add (local.get $x) (i32.const -1))) nop)
abbrev sample : SExpr
sample =
    SExpr.list
      (kid (word "block") (
        kid (word "$out") (
          kid
            (SExpr.list
              (kid (word "br") (
                kid (word "$out") (
                  kid
                    (SExpr.list
                      (kid (word "i32.add") (
                        kid (SExpr.list (kid (word "local.get") (kid (word "$x") no_kids)) 0) (
                          kid (SExpr.list (kid (word "i32.const") (kid (word "-1") no_kids)) 0)
                            no_kids)))
                      0)
                    no_kids)))
              0)
            (kid (word "nop") no_kids))))
      0

encode_instr-Returns_example :
    Returns bare start (encode_instr floats_stub bare (some (codes "$x") ∷ []) 20 sample start)
unfolding size size_kids
encode_instr-Returns_example =
    encode_instr-Returns floats_stub bare (some (codes "$x") ∷ []) 20 sample start (omega arith)

sample_bytes :
    encode_instr floats_stub bare (some (codes "$x") ∷ []) 20 sample start
    ≡ done tt (record start { out = 2 ∷ 64 ∷ 32 ∷ 0 ∷ 65 ∷ 127 ∷ 106 ∷ 12 ∷ 0 ∷ 1 ∷ 11 ∷ [] })
unfolding pure fail ◌>>=◌ branch on_option put_bytes put written uleb_bytes sleb_bytes put_uleb
    put_sleb same same_name next_of atom_text has_head is_name behind_head number find_name index_of
    find_byte blocktype_loop parse_blocktype emit_blocktype find_op among plain_imm_count
    resolve_local resolve_index find_label label_depth resolve_label operands literal encode_const
    with_index encode_variable encode_call encode_throw encode_branch encode_ref encode_struct
    encode_array encode_plain_op fc_push_label drop_last fc_pop_label transfers take_imms count_kids
    take_label encode_plain seq_loop encode_seq encode_block_body encode_block encode_control
    encode_op encode_node encode_instr flow_unreachable last_unreachable strcmp buf_uleb uleb_loop
    buf_sleb sleb_loop buf_byte buf_reserve buf_init store head parse_uint digits signed
    decimal_loop
sample_bytes = refl
