-- ===== src/Lexer/Token.antt =====
-- src/lexer.h and the tables of src/lexer.c: the kinds of token, and the names that they are
-- reported under.
use lua2wasm.Prelude.{Bytes, codes, Bool, true, false}

pub data TokKind : Type 0 where
  eof error ident int float string lparen rparen : TokKind
  lbrace rbrace lbracket rbracket comma semi colon dblcolon : TokKind
  dot concat ellipsis assign plus minus star slash : TokKind
  dslash percent caret hash eq neq lt le : TokKind
  gt ge amp pipe tilde shl shr kw_and : TokKind
  kw_break kw_do kw_else kw_elseif kw_end kw_false kw_for kw_function : TokKind
  kw_goto kw_if kw_in kw_local kw_nil kw_not kw_or kw_repeat : TokKind
  kw_return kw_then kw_true kw_until kw_while : TokKind

-- TOK_NAMES, by tok_kind_name. Every kind has its name, so the fallback "?" is never reached.
unfoldable pub tok_kind_name : TokKind → Bytes
tok_kind_name eof = codes "EOF"
tok_kind_name error = codes "ERROR"
tok_kind_name ident = codes "IDENT"
tok_kind_name int = codes "INT"
tok_kind_name float = codes "FLOAT"
tok_kind_name string = codes "STRING"
tok_kind_name lparen = codes "("
tok_kind_name rparen = codes ")"
tok_kind_name lbrace = codes "{"
tok_kind_name rbrace = codes "}"
tok_kind_name lbracket = codes "["
tok_kind_name rbracket = codes "]"
tok_kind_name comma = codes ","
tok_kind_name semi = codes ";"
tok_kind_name colon = codes ":"
tok_kind_name dblcolon = codes "::"
tok_kind_name dot = codes "."
tok_kind_name concat = codes ".."
tok_kind_name ellipsis = codes "..."
tok_kind_name assign = codes "="
tok_kind_name plus = codes "+"
tok_kind_name minus = codes "-"
tok_kind_name star = codes "*"
tok_kind_name slash = codes "/"
tok_kind_name dslash = codes "//"
tok_kind_name percent = codes "%"
tok_kind_name caret = codes "^"
tok_kind_name hash = codes "#"
tok_kind_name eq = codes "=="
tok_kind_name neq = codes "~="
tok_kind_name lt = codes "<"
tok_kind_name le = codes "<="
tok_kind_name gt = codes ">"
tok_kind_name ge = codes ">="
tok_kind_name amp = codes "&"
tok_kind_name pipe = codes "|"
tok_kind_name tilde = codes "~"
tok_kind_name shl = codes "<<"
tok_kind_name shr = codes ">>"
tok_kind_name kw_and = codes "and"
tok_kind_name kw_break = codes "break"
tok_kind_name kw_do = codes "do"
tok_kind_name kw_else = codes "else"
tok_kind_name kw_elseif = codes "elseif"
tok_kind_name kw_end = codes "end"
tok_kind_name kw_false = codes "false"
tok_kind_name kw_for = codes "for"
tok_kind_name kw_function = codes "function"
tok_kind_name kw_goto = codes "goto"
tok_kind_name kw_if = codes "if"
tok_kind_name kw_in = codes "in"
tok_kind_name kw_local = codes "local"
tok_kind_name kw_nil = codes "nil"
tok_kind_name kw_not = codes "not"
tok_kind_name kw_or = codes "or"
tok_kind_name kw_repeat = codes "repeat"
tok_kind_name kw_return = codes "return"
tok_kind_name kw_then = codes "then"
tok_kind_name kw_true = codes "true"
tok_kind_name kw_until = codes "until"
tok_kind_name kw_while = codes "while"

-- The kinds that the table of keywords holds.
abbrev pub is_keyword : TokKind → Bool
is_keyword kw_and = true
is_keyword kw_break = true
is_keyword kw_do = true
is_keyword kw_else = true
is_keyword kw_elseif = true
is_keyword kw_end = true
is_keyword kw_false = true
is_keyword kw_for = true
is_keyword kw_function = true
is_keyword kw_goto = true
is_keyword kw_if = true
is_keyword kw_in = true
is_keyword kw_local = true
is_keyword kw_nil = true
is_keyword kw_not = true
is_keyword kw_or = true
is_keyword kw_repeat = true
is_keyword kw_return = true
is_keyword kw_then = true
is_keyword kw_true = true
is_keyword kw_until = true
is_keyword kw_while = true
is_keyword _ = false
