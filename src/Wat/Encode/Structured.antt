-- ===== src/Wat/Encode/Structured.antt =====
-- Sequences and the structured control go through no null pointer and end, where the encoding of
-- the trees within them does.
use lua2wasm.Prelude.{ℕ, zero, suc, ◌+◌, ◌≤◌, ◌<◌, Bytes, Option, none, ◌≡◌, arith}
use lua2wasm.Wat.Reader.{SExpr, Kids, no_kids, kid}
use lua2wasm.Wat.Encode.{Ctx, Refusal, Action}
use lua2wasm.Wat.Encode.Ops.{plain_imm_count}
use lua2wasm.Wat.Encode.Control.{
  take_imms, encode_plain, seq_loop, count_kids, encode_seq, encode_block_body, flow_unreachable,
}
use lua2wasm.Wat.Encode.Grows.{
  Good, Good-pure, Good-bind, Good-then, Good-branch, Good-on_option, Good-put,
}
use lua2wasm.Wat.Encode.Framed.{
  Gives, Gives-pure, Gives-fail, Gives-on_option, Gives-bind, Good-Gives, Good-behind,
}
use lua2wasm.Wat.Encode.Operands.{size, size_kids, GoodBelow}

-- The immediates and the nodes behind them are the nodes there were.
abbrev Splits : Kids → Kids × Kids → Type 0
Splits k p = (size_kids p.0 + size_kids p.1 ≡ size_kids k) × (count_kids p.1 ≤ count_kids k)

-- What is left is no more.
abbrev Left : Kids → Kids → Type 0
Left k k' = (size_kids k' ≤ size_kids k) × (count_kids k' ≤ count_kids k)

module _ {c : Ctx} where
  Gives-take_imms : (why : Refusal) (n : ℕ) (k : Kids) → Gives c (Splits k) (take_imms why n k)
  unfolding take_imms size_kids count_kids size
  Gives-take_imms why zero k = Gives-pure _ (omega arith, omega arith)
  Gives-take_imms why (suc n) no_kids = Gives-fail why
  Gives-take_imms why (suc n) (kid (SExpr.list ks at) rest) = Gives-fail why
  Gives-take_imms why (suc n) (kid (SExpr.atom bs at) rest) =
      Gives-bind (take_imms why n rest) _ (Gives-take_imms why n rest)
        (λ p (e, h). Gives-pure _ (omega arith, omega arith))
  Gives-take_imms why (suc n) (kid (SExpr.string bs at) rest) =
      Gives-bind (take_imms why n rest) _ (Gives-take_imms why n rest)
        (λ p (e, h). Gives-pure _ (omega arith, omega arith))

  module _ {b : ℕ} {instr : SExpr → Action (Unit {0})} (below : GoodBelow c b instr) where
    Gives-encode_plain :
        (op : Bytes) (at : ℕ) (next : Kids)
        → size_kids next + 2 < b
        → Gives c (Left next) (encode_plain instr c op at next)
    unfolding encode_plain size size_kids
    Gives-encode_plain op at next h =
        Gives-on_option (plain_imm_count op) _ _ (Gives-fail _) (λ cnt.
          Gives-bind (take_imms _ cnt next) _ (Gives-take_imms _ cnt next) (λ p (e, l).
            Gives-bind (instr _) _ (Good-Gives _ (below _ (omega arith)))
              (λ _ _. Gives-pure p.1 (omega arith, l))))

    Good-seq_loop :
        (fuel : ℕ) (k : Kids) (last : Option SExpr)
        → count_kids k < fuel
        → size_kids k + 1 < b
        → Good c (seq_loop instr c fuel k last)
    unfolding seq_loop count_kids size_kids size
    Good-seq_loop zero k last h s = absurd (omega arith)
    Good-seq_loop (suc fuel) no_kids last h s = Good-pure last
    Good-seq_loop (suc fuel) (kid (SExpr.list ks at) rest) last h s =
        Good-then _ _ (below (SExpr.list ks at) (omega arith))
          (Good-seq_loop fuel rest _ (omega arith) (omega arith))
    Good-seq_loop (suc fuel) (kid (SExpr.atom op at) rest) last h s =
        Good-behind (encode_plain instr c op at rest) _
          (Gives-encode_plain op at rest (omega arith))
          (λ k (e, l). Good-seq_loop fuel k _ (omega arith) (omega arith))
    Good-seq_loop (suc fuel) (kid (SExpr.string op at) rest) last h s =
        Good-behind (encode_plain instr c op at rest) _
          (Gives-encode_plain op at rest (omega arith))
          (λ k (e, l). Good-seq_loop fuel k _ (omega arith) (omega arith))

    pub Good-encode_seq : (k : Kids) → size_kids k + 1 < b → Good c (encode_seq instr c k)
    unfolding encode_seq
    Good-encode_seq k h = Good-seq_loop _ k none (omega arith) h

    pub Good-encode_block_body :
        (k : Kids) → size_kids k + 1 < b → Good c (encode_block_body instr c k)
    unfolding encode_block_body
    Good-encode_block_body k h = Good-bind _ _ (Good-encode_seq k h) (λ last.
        Good-on_option last _ _ (Good-pure tt)
          (λ n. Good-branch (flow_unreachable n) _ _ (Good-put 0x00) (Good-pure tt)))
