-- ===== src/Wat/Encode/Gc.antt =====
-- src/wat2wasm.c, encode_instr: references, structures and arrays.
use lua2wasm.Prelude.{ℕ, Bytes, codes, [], ◌∷◌, Bool, false, ◌&&◌, ◌==◌, if◌then◌else◌, get_or}
use lua2wasm.Wat.Reader.{SExpr, Kids, no_kids, kid}
use lua2wasm.Wat.Encode.{
  Ctx, Action, message, in_line, pure, fail, branch, on_option, put, put_bytes, put_uleb, same,
  next_of, atom_text, has_head, behind_head, number, line_of, ◌>>=◌, ◌>>◌,
}
use lua2wasm.Wat.Encode.Types.{
  map_func, resolve_type, emit_heaptype, emit_valtype, skip_null, nonnull_part,
}
use lua2wasm.Wat.Encode.Ops.{resolve_index, resolve_field, among, find_op}
use lua2wasm.Wat.Encode.Variables.{operands}

-- The nullability and the heap type of a (ref [null] heaptype).
unfoldable pub reftype_parts : Kids → Action (Bool × Kids)
reftype_parts no_kids = fail (message (codes "expected a (ref ...) type"))
reftype_parts (kid n rest) =
    branch (has_head n "ref")
      (do
        part ← nonnull_part (skip_null (behind_head n)).1
        pure ((skip_null (behind_head n)).0, part))
      (fail (message (codes "expected a (ref ...) type")))

unfoldable pub element_count : ℕ → Kids → Action ℕ
element_count t k =
    on_option (atom_text k) (fail (message (codes "array.new_fixed needs an element count"))) number

-- The value type of a typed select, alone in its form.
unfoldable pub select_type : Ctx → ℕ → Kids → Action Kids
select_type c at (kid ty no_kids) = pure (kid ty no_kids)
select_type c at _ =
    fail (in_line (line_of c at) (codes "select (result ...) takes one value type") [])

abbrev pub is_typed : Kids → Bool
is_typed no_kids = false
is_typed (kid n rest) = has_head n "result"

abbrev first_behind : Kids → Kids
first_behind no_kids = no_kids
first_behind (kid n rest) = behind_head n

module _ (instr : SExpr → Action (Unit {0})) (c : Ctx) where
  -- The operands, and the prefix 0xfb with its opcode.
  unfoldable pub prefixed : Kids → ℕ → Action (Unit {0})
  prefixed from opcode = do operands instr from; put 0xfb; put_uleb opcode

  unfoldable pub encode_ref : Bytes → Kids → Action (Unit {0}) → Action (Unit {0})
  encode_ref op args otherwise =
      branch (same op "ref.null") (do put 0xd0; bs ← emit_heaptype c args; put_bytes bs)
        (branch (same op "ref.func")
          (do
            i ← resolve_index c.func_names (codes "function") args
            put 0xd2
            j ← map_func c i
            put_uleb j)
          (branch (same op "ref.is_null") (do operands instr args; put 0xd1)
            (branch (same op "ref.as_non_null") (do operands instr args; put 0xd4)
              (branch (same op "ref.eq") (do operands instr args; put 0xd3)
                (branch (among op ("ref.i31" ∷ "i31.get_s" ∷ "i31.get_u" ∷ []))
                  (prefixed args (
                    if get_or op 0 0 == b'r'
                    then 0x1c
                    else if get_or op 8 0 == b's'
                    then 0x1d
                    else 0x1e))
                  (branch (among op ("ref.test" ∷ "ref.cast" ∷ []))
                    (do
                      ht ← reftype_parts args
                      next_of args (λ rest. prefixed rest (
                          if same op "ref.test"
                          then (if ht.0 then 0x15 else 0x14)
                          else if ht.0
                          then 0x17
                          else 0x16))
                      bs ← emit_heaptype c ht.1
                      put_bytes bs)
                    otherwise))))))

  -- A type immediate, the operands, the opcode and the type.
  unfoldable pub with_type : Kids → ℕ → Action (Unit {0})
  with_type args opcode = do
    t ← resolve_type c args
    next_of args (λ rest. prefixed rest opcode)
    put_uleb t

  -- The same with a second immediate behind the type.
  unfoldable pub with_two : Kids → (ℕ → Kids → Action ℕ) → ℕ → Action (Unit {0})
  with_two args resolve opcode = do
    t ← resolve_type c args
    next_of args
        (λ k. do i ← resolve t k; next_of k (λ rest. prefixed rest opcode); put_uleb t; put_uleb i)

  unfoldable pub encode_struct : Bytes → Kids → Action (Unit {0}) → Action (Unit {0})
  encode_struct op args otherwise =
      branch (among op ("struct.new" ∷ "struct.new_default" ∷ []))
        (with_type args (if same op "struct.new" then 0x00 else 0x01))
        (branch (among op ("struct.get" ∷ "struct.get_s" ∷ "struct.get_u" ∷ []))
          (with_two args (resolve_field c)
            (if same op "struct.get" then 0x02 else if same op "struct.get_s" then 0x03 else 0x04))
          (branch (same op "struct.set") (with_two args (resolve_field c) 0x05) otherwise))

  unfoldable pub encode_array : Bytes → Kids → Action (Unit {0}) → Action (Unit {0})
  encode_array op args otherwise =
      branch (among op ("array.new" ∷ "array.new_default" ∷ []))
        (with_type args (if same op "array.new" then 0x06 else 0x07))
        (branch (same op "array.new_data")
          (with_two args (λ t. resolve_index c.data_names (codes "data segment")) 0x09)
          (branch (same op "array.new_fixed") (with_two args element_count 0x08) (
            branch (among op ("array.get" ∷ "array.get_s" ∷ "array.get_u" ∷ []))
              (with_type args (
                if same op "array.get" then 0x0b else if same op "array.get_s" then 0x0c else 0x0d))
              (branch (among op ("array.set" ∷ "array.fill" ∷ []))
                (with_type args (if same op "array.set" then 0x0e else 0x10))
                (branch (same op "array.len") (prefixed args 0x0f) (
                  branch (same op "array.copy") (with_two args (λ t. resolve_type c) 0x11)
                    otherwise))))))

  -- The typed select, then the table.
  unfoldable pub encode_plain_op : ℕ → Bytes → Kids → Action (Unit {0})
  encode_plain_op at op args =
      branch (same op "select" && is_typed args)
        (do
          ty ← select_type c at (first_behind args)
          next_of args (operands instr)
          put 0x1c
          put_uleb 1
          bs ← emit_valtype c ty
          put_bytes bs)
        (on_option (find_op op) (fail (in_line (line_of c at) (codes "unsupported instruction") op))
          (λ b. do operands instr args; put b))
