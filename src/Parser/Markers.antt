-- ===== src/Parser/Markers.antt =====
-- The kinds of tokens that the parser asks for are no end marker.
use lua2wasm.Prelude.{true, false, ◌≡◌, refl, arith}
use lua2wasm.Lexer.Token.{TokKind}
use lua2wasm.Parser.Kinds.{same_kind}

-- A kind that no end marker has.
pub record NotEof (k : TokKind) : Type 0 where
  pub differs : same_kind k TokKind.eof ≡ false

pub same-NotEof : (k j : TokKind) → same_kind k j ≡ true → NotEof j → NotEof k
unfolding same_kind
same-NotEof k j h n = let d = n.differs in record { differs = ground arith }

pub ident-NotEof : NotEof TokKind.ident
unfolding same_kind
ident-NotEof = record { differs = refl }

pub comma-NotEof : NotEof TokKind.comma
unfolding same_kind
comma-NotEof = record { differs = refl }

pub semi-NotEof : NotEof TokKind.semi
unfolding same_kind
semi-NotEof = record { differs = refl }

pub colon-NotEof : NotEof TokKind.colon
unfolding same_kind
colon-NotEof = record { differs = refl }

pub dblcolon-NotEof : NotEof TokKind.dblcolon
unfolding same_kind
dblcolon-NotEof = record { differs = refl }

pub dot-NotEof : NotEof TokKind.dot
unfolding same_kind
dot-NotEof = record { differs = refl }

pub assign-NotEof : NotEof TokKind.assign
unfolding same_kind
assign-NotEof = record { differs = refl }

pub rparen-NotEof : NotEof TokKind.rparen
unfolding same_kind
rparen-NotEof = record { differs = refl }

pub lparen-NotEof : NotEof TokKind.lparen
unfolding same_kind
lparen-NotEof = record { differs = refl }

pub lbrace-NotEof : NotEof TokKind.lbrace
unfolding same_kind
lbrace-NotEof = record { differs = refl }

pub rbrace-NotEof : NotEof TokKind.rbrace
unfolding same_kind
rbrace-NotEof = record { differs = refl }

pub lbracket-NotEof : NotEof TokKind.lbracket
unfolding same_kind
lbracket-NotEof = record { differs = refl }

pub rbracket-NotEof : NotEof TokKind.rbracket
unfolding same_kind
rbracket-NotEof = record { differs = refl }

pub ellipsis-NotEof : NotEof TokKind.ellipsis
unfolding same_kind
ellipsis-NotEof = record { differs = refl }

pub string-NotEof : NotEof TokKind.string
unfolding same_kind
string-NotEof = record { differs = refl }

pub star-NotEof : NotEof TokKind.star
unfolding same_kind
star-NotEof = record { differs = refl }

pub lt-NotEof : NotEof TokKind.lt
unfolding same_kind
lt-NotEof = record { differs = refl }

pub gt-NotEof : NotEof TokKind.gt
unfolding same_kind
gt-NotEof = record { differs = refl }

pub int-NotEof : NotEof TokKind.int
unfolding same_kind
int-NotEof = record { differs = refl }

pub float-NotEof : NotEof TokKind.float
unfolding same_kind
float-NotEof = record { differs = refl }

pub minus-NotEof : NotEof TokKind.minus
unfolding same_kind
minus-NotEof = record { differs = refl }

pub hash-NotEof : NotEof TokKind.hash
unfolding same_kind
hash-NotEof = record { differs = refl }

pub tilde-NotEof : NotEof TokKind.tilde
unfolding same_kind
tilde-NotEof = record { differs = refl }

pub kw_nil-NotEof : NotEof TokKind.kw_nil
unfolding same_kind
kw_nil-NotEof = record { differs = refl }

pub kw_true-NotEof : NotEof TokKind.kw_true
unfolding same_kind
kw_true-NotEof = record { differs = refl }

pub kw_false-NotEof : NotEof TokKind.kw_false
unfolding same_kind
kw_false-NotEof = record { differs = refl }

pub kw_not-NotEof : NotEof TokKind.kw_not
unfolding same_kind
kw_not-NotEof = record { differs = refl }

pub kw_then-NotEof : NotEof TokKind.kw_then
unfolding same_kind
kw_then-NotEof = record { differs = refl }

pub kw_do-NotEof : NotEof TokKind.kw_do
unfolding same_kind
kw_do-NotEof = record { differs = refl }

pub kw_end-NotEof : NotEof TokKind.kw_end
unfolding same_kind
kw_end-NotEof = record { differs = refl }

pub kw_elseif-NotEof : NotEof TokKind.kw_elseif
unfolding same_kind
kw_elseif-NotEof = record { differs = refl }

pub kw_else-NotEof : NotEof TokKind.kw_else
unfolding same_kind
kw_else-NotEof = record { differs = refl }

pub kw_in-NotEof : NotEof TokKind.kw_in
unfolding same_kind
kw_in-NotEof = record { differs = refl }

pub kw_until-NotEof : NotEof TokKind.kw_until
unfolding same_kind
kw_until-NotEof = record { differs = refl }

pub kw_function-NotEof : NotEof TokKind.kw_function
unfolding same_kind
kw_function-NotEof = record { differs = refl }

pub kw_local-NotEof : NotEof TokKind.kw_local
unfolding same_kind
kw_local-NotEof = record { differs = refl }

pub kw_if-NotEof : NotEof TokKind.kw_if
unfolding same_kind
kw_if-NotEof = record { differs = refl }

pub kw_while-NotEof : NotEof TokKind.kw_while
unfolding same_kind
kw_while-NotEof = record { differs = refl }

pub kw_return-NotEof : NotEof TokKind.kw_return
unfolding same_kind
kw_return-NotEof = record { differs = refl }

pub kw_for-NotEof : NotEof TokKind.kw_for
unfolding same_kind
kw_for-NotEof = record { differs = refl }

pub kw_repeat-NotEof : NotEof TokKind.kw_repeat
unfolding same_kind
kw_repeat-NotEof = record { differs = refl }

pub kw_break-NotEof : NotEof TokKind.kw_break
unfolding same_kind
kw_break-NotEof = record { differs = refl }

pub kw_goto-NotEof : NotEof TokKind.kw_goto
unfolding same_kind
kw_goto-NotEof = record { differs = refl }

pub ruleset kinds_NotEof = (
  ident-NotEof, comma-NotEof, semi-NotEof, colon-NotEof, dblcolon-NotEof, dot-NotEof, assign-NotEof,
  rparen-NotEof, lparen-NotEof, lbrace-NotEof, rbrace-NotEof, lbracket-NotEof, rbracket-NotEof,
  ellipsis-NotEof, string-NotEof, star-NotEof, lt-NotEof, gt-NotEof, int-NotEof, float-NotEof,
  minus-NotEof, hash-NotEof, tilde-NotEof, kw_nil-NotEof, kw_true-NotEof, kw_false-NotEof,
  kw_not-NotEof, kw_then-NotEof, kw_do-NotEof, kw_end-NotEof, kw_elseif-NotEof, kw_else-NotEof,
  kw_in-NotEof, kw_until-NotEof, kw_function-NotEof, kw_local-NotEof, kw_if-NotEof, kw_while-NotEof,
  kw_return-NotEof, kw_for-NotEof, kw_repeat-NotEof, kw_break-NotEof, kw_goto-NotEof,
)
