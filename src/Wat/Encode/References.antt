-- ===== src/Wat/Encode/References.antt =====
-- The instructions on references, structures and arrays go through no null pointer and end, where
-- the encoding of the operands does.
use lua2wasm.Prelude.{ℕ, ◌<◌, Bytes, Bool, true, false, ◌≡◌, refl, arith, ◌&&◌}
use lua2wasm.Wat.Reader.{SExpr, Kids, no_kids, kid}
use lua2wasm.Wat.Encode.{Ctx, Action, fail, on_option, put_bytes, next_of, atom_text, ◌>>=◌, ◌>>◌}
use lua2wasm.Wat.Encode.Types.{resolve_type, emit_heaptype}
use lua2wasm.Wat.Encode.Ops.{resolve_field}
use lua2wasm.Wat.Encode.Gc.{
  reftype_parts, prefixed, encode_ref, with_type, with_two, encode_struct, element_count,
  encode_array, select_type, is_typed, encode_plain_op,
}
use lua2wasm.Wat.Encode.Grows.{
  Good, Good-pure, Good-fail, Good-bind, Good-then, Good-branch, Good-branch_when, Good-on_option,
  Good-next_of, Good-after, Good-put, Good-put_uleb, Good-put_bytes, IsNode, FailsAtNull,
  good_rules,
}
use lua2wasm.Wat.Encode.Resolved.{
  Good-number, Good-resolve_type, Good-resolve_index, Good-resolve_field,
}
use lua2wasm.Wat.Encode.Typed.{
  Good-map_func, Good-emit_heaptype, Good-emit_valtype, Good-nonnull_part,
}
use lua2wasm.Wat.Encode.Operands.{
  size_kids, size-rest, GoodBelow, Good-operands, Good-rest, resolve_type-FailsAtNull,
  resolve_index-FailsAtNull,
}

reftype_parts-FailsAtNull : FailsAtNull reftype_parts
unfolding reftype_parts fail
reftype_parts-FailsAtNull = (_, λ s. refl)

resolve_field-FailsAtNull : (c : Ctx) (t : ℕ) → FailsAtNull (resolve_field c t)
unfolding resolve_field on_option atom_text fail
resolve_field-FailsAtNull c t = (_, λ s. refl)

element_count-FailsAtNull : (t : ℕ) → FailsAtNull (element_count t)
unfolding element_count on_option atom_text fail
element_count-FailsAtNull t = (_, λ s. refl)

typed-IsNode : (op : Bool) (k : Kids) → (op && is_typed k) ≡ true → IsNode k
typed-IsNode true no_kids h = ground arith
typed-IsNode false no_kids h = ground arith
typed-IsNode op (kid n rest) h = tt

module _ {c : Ctx} where
  Good-reftype_parts : (k : Kids) → Good c (reftype_parts k)
  unfolding reftype_parts
  Good-reftype_parts no_kids = Good-fail _
  Good-reftype_parts (kid n rest) = search (good_rules, Good-nonnull_part)

  Good-element_count : (t : ℕ) (k : Kids) → Good c (element_count t k)
  unfolding element_count
  Good-element_count t k = search (good_rules, Good-number)

  Good-select_type : (at : ℕ) (k : Kids) → Good c (select_type c at k)
  unfolding select_type
  Good-select_type at no_kids = Good-fail _
  Good-select_type at (kid n no_kids) = Good-pure _
  Good-select_type at (kid n (kid m rest)) = Good-fail _

  module _ {b : ℕ} {instr : SExpr → Action (Unit {0})} (below : GoodBelow c b instr) where
    Good-prefixed : (k : Kids) (opcode : ℕ) → size_kids k < b → Good c (prefixed instr c k opcode)
    unfolding prefixed
    Good-prefixed k opcode h =
        Good-then _ _ (Good-operands below k h)
          (Good-then _ _ (Good-put 0xfb) (Good-put_uleb opcode))

    -- The same behind a node that is there.
    Good-prefixed_rest :
        (k : Kids) (opcode : ℕ)
        → IsNode k
        → size_kids k < b
        → Good c (next_of k (λ rest. prefixed instr c rest opcode))
    Good-prefixed_rest k opcode i h =
        Good-next_of k _ i (λ n r e. Good-prefixed r opcode (omega (arith, size-rest k n r e)))

    Good-cast :
        (args : Kids) (opcode : Bool × Kids → ℕ)
        → size_kids args < b
        → Good c (
            reftype_parts args >>= λ ht.
            (next_of args (λ rest. prefixed instr c rest (opcode ht))
              >> (emit_heaptype c ht.1 >>= λ bs. put_bytes bs)))
    Good-cast args opcode h =
        Good-after reftype_parts args _ reftype_parts-FailsAtNull (Good-reftype_parts args) (λ i ht.
          Good-then _ _ (Good-prefixed_rest args (opcode ht) i h)
            (Good-bind _ _ (Good-emit_heaptype ht.1) Good-put_bytes))

    pub Good-encode_ref :
        (op : Bytes) (args : Kids) (otherwise : Action (Unit {0}))
        → size_kids args < b
        → Good c otherwise
        → Good c (encode_ref instr c op args otherwise)
    unfolding encode_ref
    Good-encode_ref op args otherwise h g =
        let all = Good-operands below args h in
        Good-branch _ _ _ (search (good_rules, Good-emit_heaptype)) (
          Good-branch _ _ _
            (Good-bind _ _ (Good-resolve_index _ _ args)
              (λ i. Good-then _ _ (Good-put 0xd2) (Good-bind _ _ (Good-map_func i) Good-put_uleb)))
            (Good-branch _ _ _ (Good-then _ _ all (Good-put _)) (
              Good-branch _ _ _ (Good-then _ _ all (Good-put _)) (
                Good-branch _ _ _ (Good-then _ _ all (Good-put _)) (
                  Good-branch _ _ _ (Good-prefixed args _ h)
                    (Good-branch _ _ _ (Good-cast args _ h) g))))))

    Good-with_type :
        (args : Kids) (opcode : ℕ) → size_kids args < b → Good c (with_type instr c args opcode)
    unfolding with_type
    Good-with_type args opcode h =
        Good-after (resolve_type c) args _ (resolve_type-FailsAtNull c) (Good-resolve_type args)
          (λ i t. Good-then _ _ (Good-prefixed_rest args opcode i h) (Good-put_uleb t))

    Good-with_two :
        (args : Kids) (resolve : ℕ → Kids → Action ℕ) (opcode : ℕ)
        → ((t : ℕ) → FailsAtNull (resolve t))
        → ((t : ℕ) (k : Kids) → Good c (resolve t k))
        → size_kids args < b
        → Good c (with_two instr c args resolve opcode)
    unfolding with_two
    Good-with_two args resolve opcode f r h =
        Good-after (resolve_type c) args _ (resolve_type-FailsAtNull c) (Good-resolve_type args)
          (λ i t. Good-next_of args _ i (λ n k e. Good-after (resolve t) k _ (f t) (r t k) (λ i' j.
            Good-then _ _ (Good-prefixed_rest k opcode i' (omega (arith, size-rest args n k e)))
              (Good-then _ _ (Good-put_uleb t) (Good-put_uleb j)))))

    pub Good-encode_struct :
        (op : Bytes) (args : Kids) (otherwise : Action (Unit {0}))
        → size_kids args < b
        → Good c otherwise
        → Good c (encode_struct instr c op args otherwise)
    unfolding encode_struct
    Good-encode_struct op args otherwise h g =
        let field = λ (opcode : ℕ).
          Good-with_two args (resolve_field c) opcode (resolve_field-FailsAtNull c)
            Good-resolve_field h in
        Good-branch _ _ _ (Good-with_type args _ h)
          (Good-branch _ _ _ (field _) (Good-branch _ _ _ (field _) g))

    pub Good-encode_array :
        (op : Bytes) (args : Kids) (otherwise : Action (Unit {0}))
        → size_kids args < b
        → Good c otherwise
        → Good c (encode_array instr c op args otherwise)
    unfolding encode_array
    Good-encode_array op args otherwise h g = Good-branch _ _ _ (Good-with_type args _ h) (
        Good-branch _ _ _
          (Good-with_two args _ _ (λ t. resolve_index-FailsAtNull _ _) (λ t. Good-resolve_index _ _)
            h)
          (Good-branch _ _ _
            (Good-with_two args element_count _ element_count-FailsAtNull Good-element_count h)
            (Good-branch _ _ _ (Good-with_type args _ h) (
              Good-branch _ _ _ (Good-with_type args _ h) (
                Good-branch _ _ _ (Good-prefixed args _ h) (
                  Good-branch _ _ _
                    (Good-with_two args (λ t. resolve_type c) _ (λ t. resolve_type-FailsAtNull c)
                      (λ t. Good-resolve_type) h)
                    g))))))

    pub Good-encode_plain_op :
        (at : ℕ) (op : Bytes) (args : Kids)
        → size_kids args < b
        → Good c (encode_plain_op instr c at op args)
    unfolding encode_plain_op
    Good-encode_plain_op at op args h =
        let all = Good-operands below args h in
        Good-branch_when _ _ _
          (λ typed. Good-bind _ _ (Good-select_type at _) (λ ty.
            Good-then _ _ (Good-rest below args (typed-IsNode _ args typed) h) (
              Good-then _ _ (Good-put 0x1c) (
                Good-then _ _ (Good-put_uleb 1)
                  (Good-bind _ _ (Good-emit_valtype ty) Good-put_bytes)))))
          (Good-on_option _ _ _ (Good-fail _) (λ code. Good-then _ _ all (Good-put code)))
