-- ===== src/Wat/Encode/Total.antt =====
-- encode_instr on every tree.
use lua2wasm.Prelude.{ℕ, zero, suc, ◌+◌, ◌<◌, Bytes, List, Option, arith}
use lua2wasm.Wat.Reader.{SExpr, Kids, no_kids, kid}
use lua2wasm.Wat.Encode.{Ctx, Encoder, Action}
use lua2wasm.Wat.Encode.Ops.{Floats}
use lua2wasm.Wat.Encode.Instr.{encode_op, encode_node, encode_instr}
use lua2wasm.Wat.Encode.Grows.{Returns, Good, Good-fail}
use lua2wasm.Wat.Encode.Operands.{
  size, size_kids, GoodBelow, Good-encode_const, Good-encode_variable, Good-encode_call,
  Good-encode_throw, Good-encode_branch,
}
use lua2wasm.Wat.Encode.References.{
  Good-encode_ref, Good-encode_struct, Good-encode_array, Good-encode_plain_op,
}
use lua2wasm.Wat.Encode.Blocks.{Good-encode_control}

module _ (fl : Floats) (c : Ctx) (locals : List (Option Bytes)) where
  Good-encode_op :
      (instr : SExpr → Action (Unit {0})) (b at : ℕ) (op : Bytes) (args : Kids)
      → GoodBelow c b instr
      → size_kids args + 1 < b
      → Good c (encode_op fl c locals instr at op args)
  unfolding encode_op
  Good-encode_op instr b at op args below h =
      let l : size_kids args < b = omega arith in
      Good-encode_const fl op args _ (
        Good-encode_variable below locals op args _ l (
          Good-encode_call below op args _ l (
            Good-encode_throw below op args _ l (
              Good-encode_branch below op args _ l (
                Good-encode_control below op args _ h (
                  Good-encode_ref below op args _ l (
                    Good-encode_struct below op args _ l (
                      Good-encode_array below op args _ l
                        (Good-encode_plain_op below at op args l)))))))))

  Good-encode_node :
      (instr : SExpr → Action (Unit {0})) (b : ℕ) (n : SExpr)
      → GoodBelow c b instr
      → size n < suc b
      → Good c (encode_node fl c locals instr n)
  unfolding encode_node size size_kids
  Good-encode_node instr b (SExpr.atom bs at) below h = Good-fail _
  Good-encode_node instr b (SExpr.string bs at) below h = Good-fail _
  Good-encode_node instr b (SExpr.list no_kids at) below h = Good-fail _
  Good-encode_node instr b (SExpr.list (kid (SExpr.list ks at') args) at) below h = Good-fail _
  Good-encode_node instr b (SExpr.list (kid (SExpr.string op at') args) at) below h = Good-fail _
  Good-encode_node instr b (SExpr.list (kid (SExpr.atom op at') args) at) below h =
      Good-encode_op instr b at op args below (omega arith)

  Good-encode_instr :
      (fuel : ℕ) (n : SExpr) → size n < fuel → Good c (encode_instr fl c locals fuel n)
  unfolding encode_instr
  Good-encode_instr zero n h = absurd (omega arith)
  Good-encode_instr (suc fuel) n h =
      Good-encode_node (encode_instr fl c locals fuel) fuel n (Good-encode_instr fuel) h

-- With more fuel than the tree has nodes, encode_instr ends on every tree and state: it reports an
-- error, or it returns with the frames as it found them, and signatures and bytes only added. It
-- goes through no null pointer, and reads beyond an array only where indices are mapped.
pub encode_instr-Returns :
    (fl : Floats) (c : Ctx) (locals : List (Option Bytes)) (fuel : ℕ) (n : SExpr) (s : Encoder)
    → size n < fuel
    → Returns c s (encode_instr fl c locals fuel n s)
encode_instr-Returns fl c locals fuel n s h = (Good-encode_instr fl c locals fuel n h).at s
