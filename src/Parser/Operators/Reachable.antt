-- ===== src/Parser/Operators/Reachable.antt =====
-- parse_prec asks binop_of only for a token whose level is at least PREC_OR.
use lua2wasm.Prelude.{◌<◌, none, ◌≢◌, ◌↔◌, arith}
use lua2wasm.Lexer.Token.{TokKind}
use lua2wasm.Parser.Operators.{prec_of, binop_of}

-- A kind of token has a level above PREC_NONE exactly when binop_of has an operator for it: the
-- branch that is marked unreachable is not reached behind the test of the level.
pub binop_of-prec_of : (k : TokKind) → (0 < prec_of k) ↔ (binop_of k ≢ none)
unfolding prec_of binop_of
binop_of-prec_of k = ground arith
