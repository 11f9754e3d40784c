-- ===== src/Wat/Encode/Instr.antt =====
-- src/wat2wasm.c: encode_instr, whose calls of itself the fuel bounds.
use lua2wasm.Prelude.{ℕ, zero, suc, Bytes, codes, List, [], Option}
use lua2wasm.Wat.Reader.{SExpr, Kids, kid}
use lua2wasm.Wat.Encode.{Ctx, Action, in_line, fail, give_up, line_of}
use lua2wasm.Wat.Encode.Ops.{Floats}
use lua2wasm.Wat.Encode.Variables.{
  encode_const, encode_variable, encode_call, encode_throw, encode_branch,
}
use lua2wasm.Wat.Encode.Control.{encode_control}
use lua2wasm.Wat.Encode.Gc.{encode_ref, encode_struct, encode_array, encode_plain_op}

module _ (fl : Floats) (c : Ctx) (locals : List (Option Bytes)) where
  -- The tests of encode_instr in order, behind the head `op` of the node at the offset `at`.
  unfoldable pub encode_op : (SExpr → Action (Unit {0})) → ℕ → Bytes → Kids → Action (Unit {0})
  encode_op instr at op args = encode_const fl op args (
      encode_variable instr c locals op args (
        encode_call instr c op args (
          encode_throw instr c op args (
            encode_branch instr c op args (
              encode_control instr c op args (
                encode_ref instr c op args (
                  encode_struct instr c op args
                    (encode_array instr c op args (encode_plain_op instr c at op args)))))))))

  unfoldable pub encode_node : (SExpr → Action (Unit {0})) → SExpr → Action (Unit {0})
  encode_node instr (SExpr.list (kid (SExpr.atom op at') args) at) = encode_op instr at op args
  encode_node instr (SExpr.list ks at) =
      fail (in_line (line_of c at) (codes "expected an instruction") [])
  encode_node instr (SExpr.atom bs at) =
      fail (in_line (line_of c at) (codes "expected an instruction, got atom") bs)
  encode_node instr (SExpr.string bs at) =
      fail (in_line (line_of c at) (codes "expected an instruction, got atom") bs)

  unfoldable pub encode_instr : ℕ → SExpr → Action (Unit {0})
  encode_instr zero n = give_up
  encode_instr (suc fuel) n = encode_node (encode_instr fuel) n
