-- ===== src/Parser/Kinds.antt =====
-- src/parser.c and src/lexer.h: the values of the enumeration TokKind, by which kinds are compared.
use lua2wasm.Prelude.{ℕ, Bool, ◌==◌}
use lua2wasm.Lexer.Token.{TokKind}

unfoldable pub ordinal : TokKind → ℕ
ordinal TokKind.eof = 0
ordinal TokKind.error = 1
ordinal TokKind.ident = 2
ordinal TokKind.int = 3
ordinal TokKind.float = 4
ordinal TokKind.string = 5
ordinal TokKind.lparen = 6
ordinal TokKind.rparen = 7
ordinal TokKind.lbrace = 8
ordinal TokKind.rbrace = 9
ordinal TokKind.lbracket = 10
ordinal TokKind.rbracket = 11
ordinal TokKind.comma = 12
ordinal TokKind.semi = 13
ordinal TokKind.colon = 14
ordinal TokKind.dblcolon = 15
ordinal TokKind.dot = 16
ordinal TokKind.concat = 17
ordinal TokKind.ellipsis = 18
ordinal TokKind.assign = 19
ordinal TokKind.plus = 20
ordinal TokKind.minus = 21
ordinal TokKind.star = 22
ordinal TokKind.slash = 23
ordinal TokKind.dslash = 24
ordinal TokKind.percent = 25
ordinal TokKind.caret = 26
ordinal TokKind.hash = 27
ordinal TokKind.eq = 28
ordinal TokKind.neq = 29
ordinal TokKind.lt = 30
ordinal TokKind.le = 31
ordinal TokKind.gt = 32
ordinal TokKind.ge = 33
ordinal TokKind.amp = 34
ordinal TokKind.pipe = 35
ordinal TokKind.tilde = 36
ordinal TokKind.shl = 37
ordinal TokKind.shr = 38
ordinal TokKind.kw_and = 39
ordinal TokKind.kw_break = 40
ordinal TokKind.kw_do = 41
ordinal TokKind.kw_else = 42
ordinal TokKind.kw_elseif = 43
ordinal TokKind.kw_end = 44
ordinal TokKind.kw_false = 45
ordinal TokKind.kw_for = 46
ordinal TokKind.kw_function = 47
ordinal TokKind.kw_goto = 48
ordinal TokKind.kw_if = 49
ordinal TokKind.kw_in = 50
ordinal TokKind.kw_local = 51
ordinal TokKind.kw_nil = 52
ordinal TokKind.kw_not = 53
ordinal TokKind.kw_or = 54
ordinal TokKind.kw_repeat = 55
ordinal TokKind.kw_return = 56
ordinal TokKind.kw_then = 57
ordinal TokKind.kw_true = 58
ordinal TokKind.kw_until = 59
ordinal TokKind.kw_while = 60

-- a == b, for two kinds.
unfoldable pub same_kind : TokKind → TokKind → Bool
unfolding ordinal
same_kind a b = ordinal a == ordinal b
