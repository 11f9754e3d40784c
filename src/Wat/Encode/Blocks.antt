-- ===== src/Wat/Encode/Blocks.antt =====
-- Blocks, conditionals and exception handlers go through no null pointer, end, and leave the
-- frames as they found them.
use lua2wasm.Prelude.{
  ℕ, ◌+◌, ◌≤◌, ◌<◌, Bytes, codes, String, Bool, true, false, Option, none, some, ◌≡◌, refl, arith,
  if◌then◌else◌,
}
use lua2wasm.Wat.Reader.{SExpr, Kids, no_kids, kid}
use lua2wasm.Wat.Encode.{Ctx, Action, on_option, has_head, behind_head}
use lua2wasm.Wat.Encode.Types.{BlockType, parse_blocktype, blocktype_loop}
use lua2wasm.Wat.Encode.Ops.{resolve_index}
use lua2wasm.Wat.Encode.Control.{
  take_label, last_with, before_last, else_part, encode_block, encode_branches, encode_if,
  behind_catches, tagged_catch, encode_catch, encode_catches, encode_try_table, encode_control,
}
use lua2wasm.Wat.Encode.Grows.{
  Good, Good-pure, Good-fail, Good-bind, Good-then, Good-branch, Good-on_option_when, Good-next_of,
  Good-after, Good-put, Good-put_uleb, Good-put_bytes,
}
use lua2wasm.Wat.Encode.Framed.{
  Pops-pop, Pops-then, Good-push, Gives, Gives-pure, Gives-bind, Gives-branch, Gives-weaken,
  Good-Gives, Good-behind,
}
use lua2wasm.Wat.Encode.Resolved.{Good-resolve_index, Good-resolve_label, Good-resolve_type}
use lua2wasm.Wat.Encode.Typed.{Good-collect_valtypes, Good-emit_blocktype}
use lua2wasm.Wat.Encode.Operands.{
  size, size_kids, size_positive, GoodBelow, resolve_index-FailsAtNull,
}
use lua2wasm.Wat.Encode.Structured.{Good-encode_seq, Good-encode_block_body}

-- The nodes behind the type are some of the nodes there were.
abbrev Within : Kids → Kids × BlockType → Type 0
Within k p = size_kids p.0 ≤ size_kids k

take_label-le : (k : Kids) → size_kids (take_label k).1 ≤ size_kids k
unfolding take_label size_kids
take_label-le no_kids = omega arith
take_label-le (kid n rest) = ground arith

behind_catches-le : (k : Kids) → size_kids (behind_catches k) ≤ size_kids k
unfolding behind_catches size_kids
behind_catches-le no_kids = omega arith
behind_catches-le (kid n rest) = ground (arith, behind_catches-le rest)

before_last-le : (h : String) (k : Kids) → size_kids (before_last h k).1 ≤ size_kids k
unfolding before_last size_kids
before_last-le h no_kids = omega arith
before_last-le h (kid n rest) = ground (arith, before_last-le h rest)

-- The node found has at most `b` nodes.
abbrev AtMost : ℕ → Option SExpr → Type 0
AtMost b none = Unit {0}
AtMost b (some n) = size n ≤ b

AtMost-if :
    (b : ℕ) (test : Bool) (n : SExpr) (found : Option SExpr)
    → size n ≤ b
    → AtMost b found
    → AtMost b (if test then some n else found)
AtMost-if b true n found h f = h
AtMost-if b false n found h f = f

AtMost-last_with :
    (b : ℕ) (h : String) (k : Kids) (found : Option SExpr)
    → size_kids k ≤ b
    → AtMost b found
    → AtMost b (last_with h k found)
unfolding last_with size_kids
AtMost-last_with b h no_kids found l f = f
AtMost-last_with b h (kid n rest) found l f =
    AtMost-last_with b h rest _ (omega arith) (AtMost-if b (has_head n h) n found (omega arith) f)

last_with-le :
    (h : String) (k : Kids) (n : SExpr) → last_with h k none ≡ some n → size n ≤ size_kids k
last_with-le h k n e =
    let most = AtMost-last_with (size_kids k) h k none (omega arith) tt in rw (e) at most

behind_head-lt : (n : SExpr) → size_kids (behind_head n) + 1 ≤ size n
unfolding behind_head size size_kids
behind_head-lt (SExpr.atom bs at) = omega arith
behind_head-lt (SExpr.string bs at) = omega arith
behind_head-lt (SExpr.list no_kids at) = omega arith
behind_head-lt (SExpr.list (kid m rest) at) = omega (arith, size_positive m)

module _ {c : Ctx} where
  Gives-blocktype_loop : (k : Kids) (bt : BlockType) → Gives c (Within k) (blocktype_loop c k bt)
  unfolding blocktype_loop size_kids
  Gives-blocktype_loop no_kids bt = Gives-pure _ (omega arith)
  Gives-blocktype_loop (kid n rest) bt =
      let more = λ (b : BlockType).
        Gives-weaken {Q = Within (kid n rest)} (blocktype_loop c rest b)
          (Gives-blocktype_loop rest b) (λ p h. omega arith) in
      Gives-branch (has_head n "param") _ _
        (Gives-bind _ _ (Good-Gives _ (Good-collect_valtypes n _)) (λ acc _. more _))
        (Gives-branch (has_head n "result") _ _
          (Gives-bind _ _ (Good-Gives _ (Good-collect_valtypes n _)) (λ acc _. more _))
          (Gives-branch (has_head n "type") _ _
            (Gives-bind _ _ (Good-Gives _ (Good-resolve_type _)) (λ i _. more _))
            (Gives-pure _ (omega arith))))

  Gives-parse_blocktype : (k : Kids) → Gives c (Within k) (parse_blocktype c k)
  unfolding parse_blocktype
  Gives-parse_blocktype k = Gives-blocktype_loop k _

  Good-tagged_catch : (kind : ℕ) (a : Kids) → Good c (tagged_catch c kind a)
  unfolding tagged_catch
  Good-tagged_catch kind a =
      Good-after (resolve_index c.tag_names (codes "tag")) a _ (resolve_index-FailsAtNull _ _)
        (Good-resolve_index _ _ a)
        (λ i tag. Good-then _ _ (Good-put kind) (
          Good-then _ _ (Good-put_uleb tag)
            (Good-next_of a _ i (λ n l e. Good-bind _ _ (Good-resolve_label l) Good-put_uleb))))

  Good-encode_catches : (k : Kids) → Good c (encode_catches c k)
  unfolding encode_catches encode_catch
  Good-encode_catches no_kids = Good-pure tt
  Good-encode_catches (kid n rest) =
      Good-branch _ _ _
        (Good-then _ _
          (Good-branch _ _ _ (Good-tagged_catch _ _) (
            Good-branch _ _ _ (Good-tagged_catch _ _)
              (Good-then _ _ (Good-put _) (Good-bind _ _ (Good-resolve_label _) Good-put_uleb))))
          (Good-encode_catches rest))
        (Good-pure tt)

  module _ {b : ℕ} {instr : SExpr → Action (Unit {0})} (below : GoodBelow c b instr) where
    Good-encode_block :
        (op : Bytes) (args : Kids) → size_kids args + 1 < b → Good c (encode_block instr c op args)
    unfolding encode_block
    Good-encode_block op args h =
        Good-behind _ _ (Gives-parse_blocktype (take_label args).1) (λ p l.
          let body = Good-encode_block_body below p.0 (omega (arith, take_label-le args)) in
          Good-then _ _ (Good-put _) (
            Good-bind _ _ (Good-emit_blocktype p.1) (λ bs.
              Good-then _ _ (Good-put_bytes bs)
                (Good-push _ _ (Pops-then _ _ body (Pops-pop _ (Good-put 0x0b)))))))

    Good-else_part :
        (found : Option SExpr)
        → ((n : SExpr) → found ≡ some n → size n < b)
        → Good c (else_part instr c found)
    unfolding else_part on_option
    Good-else_part none h = Good-pure tt
    Good-else_part (some n) h =
        Good-then _ _ (Good-put 0x05)
          (Good-encode_block_body below (behind_head n) (omega (arith, behind_head-lt n, h n refl)))

    Good-encode_try_table :
        (args : Kids) → size_kids args + 1 < b → Good c (encode_try_table instr c args)
    unfolding encode_try_table
    Good-encode_try_table args h =
        Good-behind _ _ (Gives-parse_blocktype (take_label args).1) (λ p l.
          let body =
            Good-encode_block_body below (behind_catches p.0)
              (omega (arith, take_label-le args, behind_catches-le p.0)) in
          Good-then _ _ (Good-put _) (
            Good-bind _ _ (Good-emit_blocktype p.1) (λ bs. Good-then _ _ (Good-put_bytes bs) (
              Good-then _ _ (Good-put_uleb _) (
                Good-then _ _ (Good-encode_catches p.0)
                  (Good-push _ _ (Pops-then _ _ body (Pops-pop _ (Good-put 0x0b)))))))))

    Good-branches :
        (label : Option Bytes) (k : Kids) (bt : BlockType) (n : SExpr)
        → size_kids k + 1 < b
        → size n < b
        → Good c (encode_branches instr c label k bt n)
    unfolding encode_branches
    Good-branches label k bt n h s =
        let before =
          Good-encode_seq below (before_last "then" k).1 (omega (arith, before_last-le "then" k)) in
        let body = Good-encode_block_body below (behind_head n) (omega (arith, behind_head-lt n)) in
        let other =
          Good-else_part (last_with "else" k none)
            (λ m e. omega (arith, last_with-le "else" k m e)) in
        Good-bind _ _ before (λ _. Good-then _ _ (Good-put 0x04) (
          Good-bind _ _ (Good-emit_blocktype bt) (λ bs. Good-then _ _ (Good-put_bytes bs) (
            Good-push _ _
              (Pops-then _ _ body (Pops-then _ _ other (Pops-pop _ (Good-put 0x0b))))))))

    Good-encode_if : (args : Kids) → size_kids args + 1 < b → Good c (encode_if instr c args)
    unfolding encode_if
    Good-encode_if args h = Good-behind _ _ (Gives-parse_blocktype (take_label args).1) (λ p l.
        Good-on_option_when (last_with "then" p.0 none) _ _ (Good-fail _) (λ n e.
          Good-branches _ p.0 p.1 n (omega (arith, take_label-le args))
            (omega (arith, take_label-le args, last_with-le "then" p.0 n e))))

    pub Good-encode_control :
        (op : Bytes) (args : Kids) (otherwise : Action (Unit {0}))
        → size_kids args + 1 < b
        → Good c otherwise
        → Good c (encode_control instr c op args otherwise)
    unfolding encode_control
    Good-encode_control op args otherwise h g = Good-branch _ _ _ (Good-encode_block op args h) (
        Good-branch _ _ _ (Good-encode_if args h)
          (Good-branch _ _ _ (Good-encode_try_table args h) g))
