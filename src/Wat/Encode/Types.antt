-- ===== src/Wat/Encode/Types.antt =====
-- src/wat2wasm.c: value, heap and storage types, signatures and block types.
use lua2wasm.Prelude.{
  get_elem?, ℕ, ◌+◌, ◌-◌, ◌%◌, ◌^◌, Bytes, codes, String, length, List, [], ◌∷◌, ◌++◌, Bool, true,
  false, ◌&&◌, ◌==◌, ltb, if◌then◌else◌, Option, none, some, map,
}
use lua2wasm.Freestanding.Mem.{peek, memcmp, is_zero}
use lua2wasm.Wat.Reader.{SExpr, Kids, no_kids, kid, atom_eq}
use lua2wasm.Wat.Encode.{
  Ctx, FuncSig, done, Action, message, about, pure, fail, beyond, branch, on_option, sleb_bytes,
  same, same_name, next_of, atom_text, has_head, is_name, behind_head, number, ◌>>=◌,
}

-- The first index of the name; no entry that is NULL has it.
unfoldable pub find_name : List (Option Bytes) → Bytes → ℕ → Option ℕ
find_name [] bs i = none
find_name (none ∷ names) bs i = find_name names bs (i + 1)
find_name (some n ∷ names) bs i = if same_name n bs then some i else find_name names bs (i + 1)

-- The index that a name or a number stands for.
unfoldable pub index_of : List (Option Bytes) → Bytes → Bytes → Action ℕ
unfolding find_name
index_of names unknown bs =
    branch (peek bs == b'$')
      (on_option (find_name names bs 0) (fail (about unknown bs)) (λ i. pure (i % 2 ^ 32)))
      (do v ← number bs; pure (v % 2 ^ 32))

unfoldable pub resolve_type : Ctx → Kids → Action ℕ
unfolding index_of
resolve_type c k =
    on_option (atom_text k) (fail (message (codes "expected a type")))
      (index_of (map (λ d. d.name) c.decls) (codes "unknown type"))

-- The byte beside the name; 0 is `none`.
unfoldable pub find_byte : List (String × ℕ) → Bytes → Option ℕ
find_byte [] bs = none
find_byte ((s, b) ∷ rows) bs = if same bs s then some b else find_byte rows bs

abbrev pub heaptypes : List (String × ℕ)
heaptypes =
    ("func", 0x70)
    ∷ ("extern", 0x6f)
    ∷ ("any", 0x6e)
    ∷ ("eq", 0x6d)
    ∷ ("i31", 0x6c)
    ∷ ("struct", 0x6b)
    ∷ ("array", 0x6a)
    ∷ ("none", 0x71)
    ∷ ("nofunc", 0x73)
    ∷ ("noextern", 0x72)
    ∷ ("exn", 0x69)
    ∷ ("noexn", 0x74)
    ∷ []

unfoldable pub abstract_heaptype : Bytes → Option ℕ
unfolding find_byte
abstract_heaptype bs = find_byte heaptypes bs

abbrev pub reftypes : List (String × ℕ)
reftypes =
    ("funcref", 0x70)
    ∷ ("externref", 0x6f)
    ∷ ("anyref", 0x6e)
    ∷ ("eqref", 0x6d)
    ∷ ("i31ref", 0x6c)
    ∷ ("structref", 0x6b)
    ∷ ("arrayref", 0x6a)
    ∷ ("nullref", 0x71)
    ∷ ("nullfuncref", 0x73)
    ∷ ("nullexternref", 0x72)
    ∷ ("exnref", 0x69)
    ∷ ("nullexnref", 0x74)
    ∷ []

unfoldable pub abstract_reftype : Bytes → Option ℕ
unfolding find_byte
abstract_reftype bs = find_byte reftypes bs

-- The bytes that emit_heaptype writes, and so for the other emit functions.
unfoldable pub emit_heaptype : Ctx → Kids → Action Bytes
unfolding resolve_type abstract_heaptype
emit_heaptype c k = on_option (atom_text k) (fail (message (codes "expected a heap type"))) (λ bs.
    on_option (if peek bs == b'$' then none else abstract_heaptype bs)
      (do i ← resolve_type c k; pure (sleb_bytes i)) (λ b. pure (b ∷ [])))

-- k, or behind `null`; and whether it is there.
unfoldable pub skip_null : Kids → Bool × Kids
skip_null no_kids = (false, no_kids)
skip_null (kid n rest) =
    if atom_eq (some n) (codes "null") then (true, rest) else (false, kid n rest)

-- (ref [null] heaptype), behind `ref`.
unfoldable pub nonnull_part : Kids → Action Kids
nonnull_part no_kids = fail (message (codes "(ref ...) needs a heap type"))
nonnull_part (kid n rest) = pure (kid n rest)

unfoldable pub emit_ref : Ctx → Kids → Action Bytes
unfolding emit_heaptype skip_null nonnull_part
emit_ref c k =
    let (nullable, k') = skip_null k in
    do
      part ← nonnull_part k'
      bs ← emit_heaptype c part
      pure ((if nullable then 0x63 else 0x64) ∷ bs)

abbrev pub numtypes : List (String × ℕ)
numtypes = ("i32", 0x7f) ∷ ("i64", 0x7e) ∷ ("f32", 0x7d) ∷ ("f64", 0x7c) ∷ []

unfoldable pub emit_valtype : Ctx → Kids → Action Bytes
unfolding emit_ref abstract_reftype find_byte
emit_valtype c no_kids = fail (message (codes "expected a value type"))
emit_valtype c (kid (SExpr.list ks at) rest) =
    branch (has_head (SExpr.list ks at) "ref") (emit_ref c (behind_head (SExpr.list ks at)))
      (fail (message (codes "expected a value type")))
emit_valtype c k = on_option (atom_text k) (fail (message (codes "expected a value type"))) (λ bs.
    on_option (find_byte numtypes bs)
      (on_option (abstract_reftype bs) (fail (about (codes "unsupported value type") bs))
        (λ b. pure (b ∷ [])))
      (λ b. pure (b ∷ [])))

abbrev pub packed : List (String × ℕ)
packed = ("i8", 0x78) ∷ ("i16", 0x77) ∷ []

unfoldable pub emit_storagetype : Ctx → Kids → Action Bytes
unfolding emit_valtype find_byte
emit_storagetype c k =
    on_option (atom_text k) (emit_valtype c k)
      (λ bs. on_option (find_byte packed bs) (emit_valtype c k) (λ b. pure (b ∷ [])))

unfoldable pub same_sig : FuncSig → FuncSig → Bool
same_sig a b =
    a.n_params == b.n_params
    && a.n_results == b.n_results
    && length a.params == length b.params
    && length a.results == length b.results
    && is_zero (memcmp a.params b.params (length b.params))
    && is_zero (memcmp a.results b.results (length b.results))

unfoldable pub find_sig : List FuncSig → FuncSig → ℕ → Option ℕ
unfolding same_sig
find_sig [] g i = none
find_sig (s ∷ sigs) g i = if same_sig s g then some i else find_sig sigs g (i + 1)

-- The table, and the index of the signature within it.
unfoldable pub sig_intern : List FuncSig → FuncSig → List FuncSig × ℕ
unfolding find_sig
sig_intern sigs g = elim (find_sig sigs g 0) [
  | some i ↦ (sigs, i % 2 ^ 32)
  | none ↦ (sigs ++ g ∷ [], length sigs % 2 ^ 32)
]

unfoldable pub intern : FuncSig → Action ℕ
intern g s = done (sig_intern s.sigs g).1 (record s { sigs = (sig_intern s.sigs g).0 })

pub record BlockType : Type 0 where
  pub type_index : Option ℕ
  pub sig : FuncSig

abbrev pub max_blocktype : ℕ
max_blocktype = 128

-- The bytes and the count of one side of a signature.
unfoldable pub bt_add : Ctx → Kids → Bytes × ℕ → Action (Bytes × ℕ)
unfolding emit_valtype
bt_add c k (arr, count) = do
  t ← emit_valtype c k
  branch (ltb max_blocktype (length arr + length t)) (fail (message (codes "block type too large")))
      (pure (arr ++ t, count + 1))

unfoldable pub bt_add_all : Ctx → Kids → Bytes × ℕ → Action (Bytes × ℕ)
unfolding bt_add
bt_add_all c no_kids acc = pure acc
bt_add_all c (kid n rest) acc = do acc' ← bt_add c (kid n rest) acc; bt_add_all c rest acc'

unfoldable pub collect_valtypes : Ctx → SExpr → Bytes × ℕ → Action (Bytes × ℕ)
unfolding bt_add_all
collect_valtypes c grp acc =
    let k = behind_head grp in
    branch (is_name k) (next_of k (λ tn. bt_add c tn acc)) (bt_add_all c k acc)

abbrev pub add_params : BlockType → Bytes × ℕ → BlockType
add_params bt (bs, n) = record bt { sig = record bt.sig { params = bs; n_params = n } }

abbrev pub add_results : BlockType → Bytes × ℕ → BlockType
add_results bt (bs, n) = record bt { sig = record bt.sig { results = bs; n_results = n } }

-- The leading forms that make up the type, and the nodes behind them.
unfoldable pub blocktype_loop : Ctx → Kids → BlockType → Action (Kids × BlockType)
unfolding collect_valtypes resolve_type
blocktype_loop c no_kids bt = pure (no_kids, bt)
blocktype_loop c (kid n rest) bt =
    branch (has_head n "param")
      (do
        acc ← collect_valtypes c n (bt.sig.params, bt.sig.n_params)
        blocktype_loop c rest (add_params bt acc))
      (branch (has_head n "result")
        (do
          acc ← collect_valtypes c n (bt.sig.results, bt.sig.n_results)
          blocktype_loop c rest (add_results bt acc))
        (branch (has_head n "type")
          (do
            i ← resolve_type c (behind_head n)
            blocktype_loop c rest (record bt { type_index = some i }))
          (pure (kid n rest, bt))))

abbrev pub empty_sig : FuncSig
empty_sig = record { params = []; n_params = 0; results = []; n_results = 0 }

unfoldable pub parse_blocktype : Ctx → Kids → Action (Kids × BlockType)
unfolding blocktype_loop
parse_blocktype c k = blocktype_loop c k (record { type_index = none; sig = empty_sig })

-- An index through a remap, where that is on.
unfoldable pub mapped : Option (List ℕ) → ℕ → Action ℕ
mapped none i = pure i
mapped (some table) i = on_option (get_elem? table i) beyond pure

unfoldable pub map_func : Ctx → ℕ → Action ℕ
unfolding mapped
map_func c i = mapped c.func_remap i

unfoldable pub map_global : Ctx → ℕ → Action ℕ
unfolding mapped
map_global c i = mapped c.global_remap i

unfoldable pub map_typeidx : Ctx → ℕ → Action ℕ
map_typeidx c t = branch (ltb t (length c.decls)) (pure t) (
    on_option c.sig_remap (pure t) (λ table.
      on_option (get_elem? table (t - length c.decls)) beyond
        (λ i. pure ((length c.decls + i) % 2 ^ 32))))

unfoldable pub emit_blocktype : Ctx → BlockType → Action Bytes
unfolding map_typeidx intern
emit_blocktype c bt =
    on_option bt.type_index
      (branch (bt.sig.n_params == 0 && bt.sig.n_results == 0) (pure (0x40 ∷ [])) (
        branch (bt.sig.n_params == 0 && bt.sig.n_results == 1) (pure bt.sig.results) (do
          i ← intern bt.sig
          t ← map_typeidx c ((length c.decls + i) % 2 ^ 32)
          pure (sleb_bytes t))))
      (λ i. pure (sleb_bytes i))
