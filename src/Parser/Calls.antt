-- ===== src/Parser/Calls.antt =====
-- src/parser.c: the two parsers that the others call back, parse_prec and parse_block.
use lua2wasm.Prelude.{ℕ, List}
use lua2wasm.Lexer.Token.{TokKind}
use lua2wasm.Parser.Ast.{Expr, Block}
use lua2wasm.Parser.State.{Action}

pub record Calls (F : Type 0) : Type 0 where
  pub parse_prec : ℕ → Action F (Expr F)
  pub parse_block : List TokKind → Action F (Block F)

-- parse_prec(p, PREC_OR)
abbrev pub parse_expr : {F : Type 0} → Calls F → Action F (Expr F)
parse_expr c = c.parse_prec 1
