-- ===== src/Wat/Encode/Operands.antt =====
-- The instructions with operands: they go through no null pointer and end, where the encoding of
-- the operands does.
use lua2wasm.Prelude.{
  ℕ, zero, suc, ◌+◌, ◌≤◌, ◌<◌, Bytes, codes, List, Option, ◌≡◌, refl, ap, arith, ◌/◌,
}
use lua2wasm.Wat.Reader.{SExpr, Kids, no_kids, kid}
use lua2wasm.Wat.Encode.{Ctx, Action, on_option, atom_text, fail, pure, next_of}
use lua2wasm.Wat.Encode.Types.{resolve_type}
use lua2wasm.Wat.Encode.Ops.{Floats, resolve_local, resolve_index, resolve_label}
use lua2wasm.Wat.Encode.Variables.{
  operands, put_pattern, encode_const, with_index, encode_variable, encode_call, encode_throw,
  put_labels, behind_labels, encode_branch,
}
use lua2wasm.Wat.Encode.Grows.{
  Good, Good-pure, Good-fail, Good-bind, Good-branch, Good-next_of, Good-after, Good-then, Good-put,
  Good-put_uleb, IsNode, FailsAtNull, good_rules,
}
use lua2wasm.Wat.Encode.Resolved.{
  Good-number, Good-parse_double, Good-resolve_type, Good-resolve_local, Good-resolve_index,
  Good-resolve_label,
}
use lua2wasm.Wat.Encode.Typed.{Good-map_func, Good-map_global}

-- The nodes of a tree.
unfoldable mutual
  pub size : SExpr → ℕ
  size (SExpr.atom bs at) = 1
  size (SExpr.string bs at) = 1
  size (SExpr.list ks at) = suc (size_kids ks)

  pub size_kids : Kids → ℕ
  size_kids no_kids = 0
  size_kids (kid n rest) = size n + size_kids rest

pub size_positive : (n : SExpr) → 1 ≤ size n
unfolding size
size_positive (SExpr.atom bs at) = omega arith
size_positive (SExpr.string bs at) = omega arith
size_positive (SExpr.list ks at) = omega arith

pub size-rest : (k : Kids) (n : SExpr) (r : Kids) → k ≡ kid n r → size_kids r < size_kids k
unfolding size_kids
size-rest k n r e = omega (arith, ap size_kids e, size_positive n)

-- The encoding of every tree of fewer than `b` nodes is good.
abbrev pub GoodBelow : Ctx → ℕ → (SExpr → Action (Unit {0})) → Type 0
GoodBelow c b instr = (n : SExpr) → size n < b → Good c (instr n)

pub resolve_type-FailsAtNull : (c : Ctx) → FailsAtNull (resolve_type c)
unfolding resolve_type on_option atom_text fail
resolve_type-FailsAtNull c = (_, λ s. refl)

pub resolve_index-FailsAtNull :
    (names : List (Option Bytes)) (what : Bytes) → FailsAtNull (resolve_index names what)
unfolding resolve_index on_option atom_text fail
resolve_index-FailsAtNull names what = (_, λ s. refl)

pub resolve_label-FailsAtNull : FailsAtNull resolve_label
unfolding resolve_label on_option atom_text fail
resolve_label-FailsAtNull = (_, λ s. refl)

resolve_local-FailsAtNull : (locals : List (Option Bytes)) → FailsAtNull (resolve_local locals)
unfolding resolve_local on_option atom_text fail
resolve_local-FailsAtNull locals = (_, λ s. refl)

Good-put_labels : {c : Ctx} (k : Kids) → Good c (put_labels k)
unfolding put_labels
Good-put_labels (kid (SExpr.atom bs at) rest) =
    Good-bind _ _ (Good-resolve_label _)
      (λ d. Good-then _ _ (Good-put_uleb d) (Good-put_labels rest))
Good-put_labels (kid (SExpr.string bs at) rest) =
    Good-bind _ _ (Good-resolve_label _)
      (λ d. Good-then _ _ (Good-put_uleb d) (Good-put_labels rest))
Good-put_labels (kid (SExpr.list ks at) rest) = Good-pure tt
Good-put_labels no_kids = Good-pure tt

behind_labels-le : (k : Kids) → size_kids (behind_labels k) ≤ size_kids k
unfolding behind_labels size_kids
behind_labels-le (kid (SExpr.atom bs at) rest) = omega (arith, behind_labels-le rest)
behind_labels-le (kid (SExpr.string bs at) rest) = omega (arith, behind_labels-le rest)
behind_labels-le (kid (SExpr.list ks at) rest) = omega arith
behind_labels-le no_kids = omega arith

module _ {c : Ctx} where
  Good-put_pattern : (n bits : ℕ) → Good c (put_pattern n bits)
  unfolding put_pattern
  Good-put_pattern zero bits = Good-pure tt
  Good-put_pattern (suc n) bits = Good-bind _ _ (Good-put _) (λ _. Good-put_pattern n (bits / 256))

  pub Good-encode_const :
      (fl : Floats) (op : Bytes) (args : Kids) (otherwise : Action (Unit {0}))
      → Good c otherwise
      → Good c (encode_const fl op args otherwise)
  unfolding encode_const
  Good-encode_const fl op args otherwise g = Good-branch _ _ _ (search (good_rules, Good-number)) (
      Good-branch _ _ _ (search (good_rules, Good-number)) (
        Good-branch _ _ _ (search (good_rules, Good-parse_double, Good-put_pattern))
          (Good-branch _ _ _ (search (good_rules, Good-parse_double, Good-put_pattern)) g)))

  module _ {b : ℕ} {instr : SExpr → Action (Unit {0})} (below : GoodBelow c b instr) where
    pub Good-operands : (k : Kids) → size_kids k < b → Good c (operands instr k)
    unfolding operands size_kids
    Good-operands no_kids h = Good-pure tt
    Good-operands (kid n rest) h =
        let first = below n (omega arith) in
        let more = Good-operands rest (omega arith) in search (good_rules, first, more)

    pub Good-rest : (k : Kids) → IsNode k → size_kids k < b → Good c (next_of k (operands instr))
    Good-rest k i h =
        Good-next_of k (operands instr) i
          (λ n r e. Good-operands r (omega (arith, size-rest k n r e)))

    Good-with_index :
        (args : Kids) (resolve : Kids → Action ℕ) (opcode : ℕ) (remap : ℕ → Action ℕ)
        → FailsAtNull resolve
        → Good c (resolve args)
        → ((i : ℕ) → Good c (remap i))
        → size_kids args < b
        → Good c (with_index instr c args (resolve args) opcode remap)
    unfolding with_index
    Good-with_index args resolve opcode remap f g m h = Good-after resolve args _ f g (λ i a.
        Good-then _ _ (Good-rest args i h)
          (Good-then _ _ (Good-put opcode) (Good-bind _ _ (m a) Good-put_uleb)))

    pub Good-encode_variable :
        (locals : List (Option Bytes)) (op : Bytes) (args : Kids) (otherwise : Action (Unit {0}))
        → size_kids args < b
        → Good c otherwise
        → Good c (encode_variable instr c locals op args otherwise)
    unfolding encode_variable
    Good-encode_variable locals op args otherwise h g =
        Good-branch _ _ _
          (Good-with_index args (resolve_local locals) _ pure (resolve_local-FailsAtNull locals)
            (Good-resolve_local locals args) Good-pure h)
          (Good-branch _ _ _
            (Good-with_index args (resolve_index c.global_names (codes "global")) _ _
              (resolve_index-FailsAtNull _ _) (Good-resolve_index _ _ args) Good-map_global h)
            g)

    pub Good-encode_call :
        (op : Bytes) (args : Kids) (otherwise : Action (Unit {0}))
        → size_kids args < b
        → Good c otherwise
        → Good c (encode_call instr c op args otherwise)
    unfolding encode_call
    Good-encode_call op args otherwise h g =
        Good-branch _ _ _
          (Good-with_index args (resolve_index c.func_names (codes "function")) _ _
            (resolve_index-FailsAtNull _ _) (Good-resolve_index _ _ args) Good-map_func h)
          (Good-branch _ _ _
            (Good-with_index args (resolve_type c) _ pure (resolve_type-FailsAtNull c)
              (Good-resolve_type args) Good-pure h)
            g)

    pub Good-encode_throw :
        (op : Bytes) (args : Kids) (otherwise : Action (Unit {0}))
        → size_kids args < b
        → Good c otherwise
        → Good c (encode_throw instr c op args otherwise)
    unfolding encode_throw
    Good-encode_throw op args otherwise h g =
        let all = Good-operands args h in
        Good-branch _ _ _
          (Good-with_index args (resolve_index c.tag_names (codes "tag")) _ pure
            (resolve_index-FailsAtNull _ _) (Good-resolve_index _ _ args) Good-pure h)
          (Good-branch _ _ _ (search (good_rules, all)) g)

    pub Good-encode_branch :
        (op : Bytes) (args : Kids) (otherwise : Action (Unit {0}))
        → size_kids args < b
        → Good c otherwise
        → Good c (encode_branch instr c op args otherwise)
    unfolding encode_branch
    Good-encode_branch op args otherwise h g =
        let all = Good-operands (behind_labels args) (omega (arith, behind_labels-le args)) in
        let labels = Good-put_labels args in
        Good-branch _ _ _
          (Good-with_index args resolve_label _ pure resolve_label-FailsAtNull
            (Good-resolve_label args) Good-pure h)
          (Good-branch _ _ _
            (Good-branch _ _ _ (Good-fail _) (
              Good-then _ _ all
                (Good-then _ _ (Good-put 0x0e) (Good-then _ _ (Good-put_uleb _) labels))))
            g)
