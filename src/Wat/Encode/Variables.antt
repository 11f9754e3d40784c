-- ===== src/Wat/Encode/Variables.antt =====
-- src/wat2wasm.c, encode_instr: constants, variables, calls, exceptions and branches.
-- `instr` encodes an operand, and `otherwise` is what follows the tests in encode_instr.
use lua2wasm.Prelude.{
  ℕ, ◌+◌, ◌-◌, ◌%◌, ◌^◌, Bytes, codes, List, [], ◌∷◌, ◌==◌, ltb, if◌then◌else◌, Option, get_or, ◌/◌,
  zero, suc,
}
use lua2wasm.Wat.Reader.{SExpr, Kids, no_kids, kid}
use lua2wasm.Wat.Encode.{
  Ctx, Action, message, pure, fail, branch, on_option, put, put_uleb, put_sleb, same, next_of,
  atom_text, number, ◌>>=◌, ◌>>◌,
}
use lua2wasm.Wat.Encode.Types.{map_func, map_global, resolve_type}
use lua2wasm.Wat.Encode.Ops.{
  Floats, parse_double, resolve_local, resolve_index, resolve_label, among,
}

-- encode_operands
unfoldable pub operands : (SExpr → Action (Unit {0})) → Kids → Action (Unit {0})
operands instr no_kids = pure tt
operands instr (kid n rest) = do instr n; operands instr rest

-- (int64_t)(int32_t)(uint32_t)v
abbrev pub sign_32 : ℕ → ℕ
sign_32 v = if ltb (v % 2 ^ 32) (2 ^ 31) then v % 2 ^ 32 else v % 2 ^ 32 + (2 ^ 64 - 2 ^ 32)

-- The bytes of a pattern, lowest first, as buf_f32 and buf_f64 put them.
unfoldable pub put_pattern : ℕ → ℕ → Action (Unit {0})
put_pattern zero bits = pure tt
put_pattern (suc n) bits = do put (bits % 256); put_pattern n (bits / 256)

unfoldable pub literal : Kids → Bytes → (Bytes → Action (Unit {0})) → Action (Unit {0})
literal args missing use_text = on_option (atom_text args) (fail (message missing)) use_text

unfoldable pub encode_const : Floats → Bytes → Kids → Action (Unit {0}) → Action (Unit {0})
unfolding literal
encode_const fl op args otherwise =
    branch (same op "i32.const")
      (literal args (codes "i32.const needs a literal")
        (λ bs. do put 0x41; v ← number bs; put_sleb (sign_32 v)))
      (branch (same op "i64.const")
        (literal args (codes "i64.const needs a literal")
          (λ bs. do put 0x42; v ← number bs; put_sleb v))
        (branch (same op "f32.const")
          (literal args (codes "f32.const needs a literal")
            (λ bs. do put 0x43; d ← parse_double fl bs; put_pattern 4 (fl.narrow d)))
          (branch (same op "f64.const")
            (literal args (codes "f64.const needs a literal")
              (λ bs. do put 0x44; d ← parse_double fl bs; put_pattern 8 d))
            otherwise)))

-- The leading atoms of br_table, and what stands behind them.
unfoldable pub count_labels : Kids → ℕ
count_labels (kid (SExpr.atom bs at) rest) = suc (count_labels rest)
count_labels (kid (SExpr.string bs at) rest) = suc (count_labels rest)
count_labels _ = 0

unfoldable pub behind_labels : Kids → Kids
behind_labels (kid (SExpr.atom bs at) rest) = behind_labels rest
behind_labels (kid (SExpr.string bs at) rest) = behind_labels rest
behind_labels k = k

unfoldable pub put_labels : Kids → Action (Unit {0})
put_labels (kid (SExpr.atom bs at) rest) = do
  d ← resolve_label (kid (SExpr.atom bs at) rest)
  put_uleb d
  put_labels rest
put_labels (kid (SExpr.string bs at) rest) = do
  d ← resolve_label (kid (SExpr.string bs at) rest)
  put_uleb d
  put_labels rest
put_labels _ = pure tt

module _ (instr : SExpr → Action (Unit {0})) (c : Ctx) where
  -- An index immediate, then the operands, the opcode and the index.
  unfoldable pub with_index : Kids → Action ℕ → ℕ → (ℕ → Action ℕ) → Action (Unit {0})
  unfolding operands
  with_index args resolve opcode remap = do
    i ← resolve
    next_of args (operands instr)
    put opcode
    j ← remap i
    put_uleb j

  unfoldable pub encode_variable :
      List (Option Bytes) → Bytes → Kids → Action (Unit {0}) → Action (Unit {0})
  unfolding with_index
  encode_variable locals op args otherwise =
      branch (among op ("local.get" ∷ "local.set" ∷ "local.tee" ∷ []))
        (with_index args (resolve_local locals args)
          (if get_or op 6 0 == b'g' then 0x20 else if get_or op 6 0 == b's' then 0x21 else 0x22)
          pure)
        (branch (among op ("global.get" ∷ "global.set" ∷ []))
          (with_index args (resolve_index c.global_names (codes "global") args)
            (if get_or op 7 0 == b'g' then 0x23 else 0x24) (map_global c))
          otherwise)

  unfoldable pub encode_call : Bytes → Kids → Action (Unit {0}) → Action (Unit {0})
  unfolding with_index
  encode_call op args otherwise =
      branch (among op ("call" ∷ "return_call" ∷ []))
        (with_index args (resolve_index c.func_names (codes "function") args)
          (if get_or op 0 0 == b'c' then 0x10 else 0x12) (map_func c))
        (branch (among op ("call_ref" ∷ "return_call_ref" ∷ []))
          (with_index args (resolve_type c args) (if get_or op 0 0 == b'c' then 0x14 else 0x15)
            pure)
          otherwise)

  unfoldable pub encode_throw : Bytes → Kids → Action (Unit {0}) → Action (Unit {0})
  unfolding with_index
  encode_throw op args otherwise =
      branch (same op "throw")
        (with_index args (resolve_index c.tag_names (codes "tag") args) 0x08 pure)
        (branch (same op "throw_ref") (do operands instr args; put 0x0a) otherwise)

  unfoldable pub encode_branch : Bytes → Kids → Action (Unit {0}) → Action (Unit {0})
  unfolding with_index
  encode_branch op args otherwise =
      branch (among op ("br" ∷ "br_if" ∷ []))
        (with_index args (resolve_label args) (if same op "br" then 0x0c else 0x0d) pure)
        (branch (same op "br_table")
          (branch (count_labels args == 0)
            (fail (message (codes "br_table needs at least a default label")))
            (do
              operands instr (behind_labels args)
              put 0x0e
              put_uleb (count_labels args - 1)
              put_labels args))
          otherwise)
