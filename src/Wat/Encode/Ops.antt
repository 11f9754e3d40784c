-- ===== src/Wat/Encode/Ops.antt =====
-- src/wat2wasm.c: the table of the instructions without immediates, the number of immediates of a
-- plain instruction, and the indices that instructions name.
use lua2wasm.Prelude.{
  ℕ, zero, suc, ◌%◌, ◌^◌, Bytes, codes, String, length, List, [], ◌∷◌, Bool, true, false, ◌||◌,
  ◌==◌, if◌then◌else◌, Option, none, some, get_elem?,
}
use lua2wasm.Freestanding.Mem.{peek, strncmp, is_zero}
use lua2wasm.Wat.Reader.{Kids}
use lua2wasm.Wat.Encode.{
  Ctx, Action, message, about, pure, fail, branch, on_option, same, same_name, atom_text, number,
  ◌>>=◌,
}
use lua2wasm.Wat.Encode.Types.{find_byte, index_of, find_name}

abbrev pub ops : List (String × ℕ)
ops =
    ("unreachable", 0x00)
    ∷ ("nop", 0x01)
    ∷ ("drop", 0x1a)
    ∷ ("select", 0x1b)
    ∷ ("return", 0x0f)
    ∷ ("i32.eqz", 0x45)
    ∷ ("i32.eq", 0x46)
    ∷ ("i32.ne", 0x47)
    ∷ ("i32.lt_s", 0x48)
    ∷ ("i32.lt_u", 0x49)
    ∷ ("i32.gt_s", 0x4a)
    ∷ ("i32.gt_u", 0x4b)
    ∷ ("i32.le_s", 0x4c)
    ∷ ("i32.le_u", 0x4d)
    ∷ ("i32.ge_s", 0x4e)
    ∷ ("i32.ge_u", 0x4f)
    ∷ ("i32.add", 0x6a)
    ∷ ("i32.sub", 0x6b)
    ∷ ("i32.mul", 0x6c)
    ∷ ("i32.div_s", 0x6d)
    ∷ ("i32.div_u", 0x6e)
    ∷ ("i32.rem_s", 0x6f)
    ∷ ("i32.rem_u", 0x70)
    ∷ ("i32.and", 0x71)
    ∷ ("i32.or", 0x72)
    ∷ ("i32.xor", 0x73)
    ∷ ("i32.shl", 0x74)
    ∷ ("i32.shr_s", 0x75)
    ∷ ("i32.shr_u", 0x76)
    ∷ ("i32.rotl", 0x77)
    ∷ ("i32.rotr", 0x78)
    ∷ ("i64.eqz", 0x50)
    ∷ ("i64.eq", 0x51)
    ∷ ("i64.ne", 0x52)
    ∷ ("i64.lt_s", 0x53)
    ∷ ("i64.lt_u", 0x54)
    ∷ ("i64.gt_s", 0x55)
    ∷ ("i64.gt_u", 0x56)
    ∷ ("i64.le_s", 0x57)
    ∷ ("i64.le_u", 0x58)
    ∷ ("i64.ge_s", 0x59)
    ∷ ("i64.ge_u", 0x5a)
    ∷ ("i64.add", 0x7c)
    ∷ ("i64.sub", 0x7d)
    ∷ ("i64.mul", 0x7e)
    ∷ ("i64.div_s", 0x7f)
    ∷ ("i64.div_u", 0x80)
    ∷ ("i64.rem_s", 0x81)
    ∷ ("i64.rem_u", 0x82)
    ∷ ("i64.and", 0x83)
    ∷ ("i64.or", 0x84)
    ∷ ("i64.xor", 0x85)
    ∷ ("i64.shl", 0x86)
    ∷ ("i64.shr_s", 0x87)
    ∷ ("i64.shr_u", 0x88)
    ∷ ("i64.rotl", 0x89)
    ∷ ("i64.rotr", 0x8a)
    ∷ ("f32.eq", 0x5b)
    ∷ ("f32.ne", 0x5c)
    ∷ ("f32.lt", 0x5d)
    ∷ ("f32.gt", 0x5e)
    ∷ ("f32.le", 0x5f)
    ∷ ("f32.ge", 0x60)
    ∷ ("f32.abs", 0x8b)
    ∷ ("f32.neg", 0x8c)
    ∷ ("f32.ceil", 0x8d)
    ∷ ("f32.floor", 0x8e)
    ∷ ("f32.trunc", 0x8f)
    ∷ ("f32.nearest", 0x90)
    ∷ ("f32.sqrt", 0x91)
    ∷ ("f32.add", 0x92)
    ∷ ("f32.sub", 0x93)
    ∷ ("f32.mul", 0x94)
    ∷ ("f32.div", 0x95)
    ∷ ("f32.min", 0x96)
    ∷ ("f32.max", 0x97)
    ∷ ("f32.copysign", 0x98)
    ∷ ("f64.eq", 0x61)
    ∷ ("f64.ne", 0x62)
    ∷ ("f64.lt", 0x63)
    ∷ ("f64.gt", 0x64)
    ∷ ("f64.le", 0x65)
    ∷ ("f64.ge", 0x66)
    ∷ ("f64.abs", 0x99)
    ∷ ("f64.neg", 0x9a)
    ∷ ("f64.ceil", 0x9b)
    ∷ ("f64.floor", 0x9c)
    ∷ ("f64.trunc", 0x9d)
    ∷ ("f64.nearest", 0x9e)
    ∷ ("f64.sqrt", 0x9f)
    ∷ ("f64.add", 0xa0)
    ∷ ("f64.sub", 0xa1)
    ∷ ("f64.mul", 0xa2)
    ∷ ("f64.div", 0xa3)
    ∷ ("f64.min", 0xa4)
    ∷ ("f64.max", 0xa5)
    ∷ ("f64.copysign", 0xa6)
    ∷ ("i32.wrap_i64", 0xa7)
    ∷ ("i32.trunc_f64_s", 0xaa)
    ∷ ("i32.trunc_f64_u", 0xab)
    ∷ ("i64.extend_i32_s", 0xac)
    ∷ ("i64.extend_i32_u", 0xad)
    ∷ ("i64.trunc_f64_s", 0xb0)
    ∷ ("i64.trunc_f64_u", 0xb1)
    ∷ ("f64.convert_i32_s", 0xb7)
    ∷ ("f64.convert_i32_u", 0xb8)
    ∷ ("f64.convert_i64_s", 0xb9)
    ∷ ("f64.convert_i64_u", 0xba)
    ∷ ("f64.promote_f32", 0xbb)
    ∷ ("f32.demote_f64", 0xb6)
    ∷ ("f32.convert_i32_s", 0xb2)
    ∷ ("f32.convert_i64_s", 0xb4)
    ∷ ("i32.reinterpret_f32", 0xbc)
    ∷ ("i64.reinterpret_f64", 0xbd)
    ∷ ("f32.reinterpret_i32", 0xbe)
    ∷ ("f64.reinterpret_i64", 0xbf)
    ∷ []

unfoldable pub find_op : Bytes → Option ℕ
unfolding find_byte
find_op name = find_byte ops name

unfoldable pub among : Bytes → List String → Bool
among bs [] = false
among bs (s ∷ ss) = if same bs s then true else among bs ss

-- -1 is `none`.
unfoldable pub plain_imm_count : Bytes → Option ℕ
unfolding among
plain_imm_count op =
    if among op (
      "block" ∷ "loop" ∷ "if" ∷ "else" ∷ "end" ∷ "try_table" ∷ "ref.test" ∷ "ref.cast" ∷ "br_table"
      ∷ [])
    then none
    else if among op (
        "struct.get" ∷ "struct.get_s" ∷ "struct.get_u" ∷ "struct.set" ∷ "array.copy"
        ∷ "array.new_fixed" ∷ "array.new_data" ∷ [])
    then some 2
    else if among op (
        "local.get" ∷ "local.set" ∷ "local.tee" ∷ "global.get" ∷ "global.set" ∷ "call"
        ∷ "return_call" ∷ "call_ref" ∷ "return_call_ref" ∷ "br" ∷ "br_if" ∷ "throw" ∷ "ref.func"
        ∷ "ref.null" ∷ "i32.const" ∷ "i64.const" ∷ "f32.const" ∷ "f64.const" ∷ "struct.new"
        ∷ "struct.new_default" ∷ "array.new" ∷ "array.new_default" ∷ "array.get" ∷ "array.get_s"
        ∷ "array.get_u" ∷ "array.set" ∷ "array.fill" ∷ [])
    then some 1
    else some 0

unfoldable pub resolve_local : List (Option Bytes) → Kids → Action ℕ
unfolding index_of
resolve_local locals k =
    on_option (atom_text k) (fail (message (codes "expected local index")))
      (index_of locals (codes "unknown local"))

unfoldable pub resolve_index : List (Option Bytes) → Bytes → Kids → Action ℕ
unfolding index_of
resolve_index names what k =
    on_option (atom_text k) (fail (about (codes "expected index") what)) (index_of names what)

abbrev is_label : Option Bytes → Bytes → Bool
is_label none bs = false
is_label (some n) bs = same_name n bs

-- The depth of the innermost frame with the name; the innermost frame is the last.
unfoldable pub find_label : List (Option Bytes) → Bytes → Option ℕ
find_label [] bs = none
find_label (l ∷ ls) bs = elim (find_label ls bs) [
  | some d ↦ some d
  | none ↦ if is_label l bs then some (length ls) else none
]

unfoldable pub label_depth : Bytes → Action ℕ
unfolding find_label
label_depth bs s =
    branch (peek bs == b'$')
      (on_option (find_label s.labels bs) (fail (about (codes "unknown label") bs))
        (λ d. pure (d % 2 ^ 32)))
      (do v ← number bs; pure (v % 2 ^ 32)) s

unfoldable pub resolve_label : Kids → Action ℕ
unfolding label_depth
resolve_label k =
    on_option (atom_text k) (fail (message (codes "expected branch label"))) label_depth

unfoldable pub resolve_field : Ctx → ℕ → Kids → Action ℕ
unfolding find_name
resolve_field c t k =
    on_option (atom_text k) (fail (message (codes "expected a field index"))) (λ bs.
      branch (peek bs == b'$')
        (on_option (get_elem? c.decls t) (fail (message (codes "field name on a non-struct type")))
          (λ d.
            on_option (find_name d.field_names bs 0) (fail (about (codes "unknown field") bs))
              (λ i. pure (i % 2 ^ 32))))
        (do v ← number bs; pure (v % 2 ^ 32)))

-- strtod is not of this code: the bits of the double at the front of the text, and `none` where
-- there is no number. So is the conversion of a double's bits to those of a float.
pub record Floats : Type 0 where
  pub strtod : Bytes → Option ℕ
  pub narrow : ℕ → ℕ

-- The text without its underscores, as far as the scratch buffer holds it.
unfoldable pub strip_loop : ℕ → Bytes → Bytes
strip_loop room [] = []
strip_loop zero (c ∷ cs) = []
strip_loop (suc room) (c ∷ cs) =
    let skipped = strip_loop (suc room) cs in
    let kept = c ∷ strip_loop room cs in if c == 0 then [] else if c == b'_' then skipped else kept

abbrev has_underscore : Bytes → Bool
has_underscore [] = false
has_underscore (c ∷ cs) = if c == 0 then false else if c == b'_' then true else has_underscore cs

unfoldable pub unsigned_text : Bytes → Bytes
unsigned_text [] = []
unsigned_text (c ∷ cs) = if c == b'+' || c == b'-' then cs else c ∷ cs

-- The bits of the double.
unfoldable pub parse_double : Floats → Bytes → Action ℕ
unfolding strip_loop unsigned_text
parse_double fl s =
    let p = unsigned_text s in
    let neg = peek s == b'-' in
    let text = if has_underscore s then strip_loop 127 s else s in
    branch (is_zero (strncmp p (codes "inf") 3))
      (pure (if neg then 0xfff0000000000000 else 0x7ff0000000000000))
      (branch (is_zero (strncmp p (codes "nan") 3))
        (pure (if neg then 0xfff8000000000000 else 0x7ff8000000000000))
        (on_option (fl.strtod text) (fail (about (codes "bad float literal") text)) pure))
