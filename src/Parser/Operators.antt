-- ===== src/Parser/Operators.antt =====
-- src/parser.c, the tables of the binary operators, and the operators of src/ast.h. The loop of
-- parse_prec that asks them is not modelled.
pub mod Reachable
use lua2wasm.Prelude.{ℕ, Option, none, some}
use lua2wasm.Lexer.Token.{TokKind}

pub data BinOp : Type 0 where
  bin_add bin_sub bin_mul bin_div bin_fdiv bin_mod bin_pow : BinOp
  bin_band bin_bor bin_bxor bin_shl bin_shr bin_concat : BinOp
  bin_eq bin_neq bin_lt bin_le bin_gt bin_ge bin_and bin_or : BinOp

-- PREC_NONE is 0, and the levels go up to PREC_POW.
unfoldable pub prec_of : TokKind → ℕ
prec_of TokKind.kw_or = 1
prec_of TokKind.kw_and = 2
prec_of TokKind.eq = 3
prec_of TokKind.neq = 3
prec_of TokKind.lt = 3
prec_of TokKind.le = 3
prec_of TokKind.gt = 3
prec_of TokKind.ge = 3
prec_of TokKind.pipe = 4
prec_of TokKind.tilde = 5
prec_of TokKind.amp = 6
prec_of TokKind.shl = 7
prec_of TokKind.shr = 7
prec_of TokKind.concat = 8
prec_of TokKind.plus = 9
prec_of TokKind.minus = 9
prec_of TokKind.star = 10
prec_of TokKind.slash = 10
prec_of TokKind.dslash = 10
prec_of TokKind.percent = 10
prec_of TokKind.caret = 12
prec_of _ = 0

-- __builtin_unreachable() is `none`.
unfoldable pub binop_of : TokKind → Option BinOp
binop_of TokKind.plus = some bin_add
binop_of TokKind.minus = some bin_sub
binop_of TokKind.star = some bin_mul
binop_of TokKind.slash = some bin_div
binop_of TokKind.dslash = some bin_fdiv
binop_of TokKind.percent = some bin_mod
binop_of TokKind.caret = some bin_pow
binop_of TokKind.amp = some bin_band
binop_of TokKind.pipe = some bin_bor
binop_of TokKind.tilde = some bin_bxor
binop_of TokKind.shl = some bin_shl
binop_of TokKind.shr = some bin_shr
binop_of TokKind.concat = some bin_concat
binop_of TokKind.eq = some bin_eq
binop_of TokKind.neq = some bin_neq
binop_of TokKind.lt = some bin_lt
binop_of TokKind.le = some bin_le
binop_of TokKind.gt = some bin_gt
binop_of TokKind.ge = some bin_ge
binop_of TokKind.kw_and = some bin_and
binop_of TokKind.kw_or = some bin_or
binop_of _ = none
