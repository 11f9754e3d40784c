-- ===== src/Runs/Parsing.antt =====
-- Runs of the parser.
use lua2wasm.Prelude.{
  ◌⊎◌, ℕ, ◌+◌, ◌<◌, ◌≢◌, ◌↔◌, codes, length, List, [], ◌∷◌, ◌++◌, none, some, ◌≡◌, refl, inl, true,
  false, arith, equal,
}
use lua2wasm.Lexer.Token.{TokKind}
use lua2wasm.Lexer.Scan.{Token, TokenList, lex}
use lua2wasm.Parser.Operators.{prec_of, binop_of, bin_pow}
use lua2wasm.Parser.Operators.Reachable.{binop_of-prec_of}
use lua2wasm.Parser.Scope.{
  frame_init, FuncFrame, decl_local, frame_search, search_locals, frame_add_upvalue, find_upvalue,
  all_none,
}
use lua2wasm.Parser.Resolve.Innermost.{resolve_in_frame-StandsFor}
use lua2wasm.Parser.Resolve.Scoping.{StandsFor, innermost}
use lua2wasm.Parser.Resolve.{
  resolve_in_frame, through_parent, capture, mark_captured, as_upvalue, at_slot, declared_or,
}
use lua2wasm.Parser.Ast.{upval}
use lua2wasm.Parser.State.{Parser, done, overrun, Complaint, plain}
use lua2wasm.Parser.Block.{ParseResult, parse, parse_stmt, tie, initial}
use lua2wasm.Parser.Expr.{parse_prec}
use lua2wasm.Parser.Body.{parse_function_body_ex}
use lua2wasm.Parser.Whole.{
  Keeps, ResultFits, Returns, initial-Fits, parse-Returns, parse_stmt-error,
}
use lua2wasm.Parser.Fits.{Wide}
use lua2wasm.Parser.Whole.Source.{lex-parse}
use lua2wasm.Runs.Lexing.{strtod_stub}

caret_is_pow : binop_of TokKind.caret ≡ some bin_pow
unfolding binop_of
caret_is_pow = refl

binop_of-prec_of_example : (0 < prec_of TokKind.caret) ↔ (binop_of TokKind.caret ≢ none)
binop_of-prec_of_example = binop_of-prec_of TokKind.caret

abbrev token : TokKind → ℕ → Token ℕ
token k value = record {
  kind = k;
  start = codes "x";
  len = 1;
  line = 1;
  i_val = value;
  f_val = none;
  str_buf = [];
}

-- x = 7
abbrev assignment : List (Token ℕ)
assignment = token TokKind.ident 0 ∷ token TokKind.assign 0 ∷ token TokKind.int 7 ∷ []

abbrev end_marker : Token ℕ
end_marker = token TokKind.eof 0

-- An error in line 3.
abbrev stray : ℕ × Complaint
stray = (3, plain (codes "expected a statement"))

-- The error of line 3 is recorded, and the tokens are no statement, no expression and no body.
abbrev unfinished : List (Token ℕ)
unfinished = token TokKind.kw_do 0 ∷ token TokKind.assign 0 ∷ []

parse_stmt-error_example :
    Keeps stray (
      parse_stmt
        (unfinished ++ end_marker ∷ [])
        (tie (unfinished ++ end_marker ∷ []) 4)
        (record initial { error = some stray }))
    × Keeps stray (
        parse_prec
          (unfinished ++ end_marker ∷ [])
          (tie (unfinished ++ end_marker ∷ []) 4)
          1
          (record initial { error = some stray }))
    × Keeps stray (
        parse_function_body_ex
          (unfinished ++ end_marker ∷ [])
          (tie (unfinished ++ end_marker ∷ []) 4).parse_block
          3
          false
          (record initial { error = some stray }))
unfolding initial
parse_stmt-error_example =
    parse_stmt-error unfinished end_marker (record initial { error = some stray }) stray 1 3 false
      refl (omega arith) (omega arith) (initial-Fits ℕ) refl

-- Of three functions, the outermost declares `a` in slot 5.
abbrev declaring : FuncFrame
declaring = record frame_init {
  locals = record { name = codes "a"; slot = some 5; attrib = 0; kind = decl_local } ∷ [];
}

resolve_in_frame-StandsFor_example :
    StandsFor
      (resolve_in_frame
        (codes "a")
        frame_init
        (frame_init ∷ declaring ∷ [])
        (record { collective = all_none; voided = false })
        [])
      (innermost (codes "a") frame_init (frame_init ∷ declaring ∷ []))
resolve_in_frame-StandsFor_example =
    resolve_in_frame-StandsFor (codes "a") frame_init (frame_init ∷ declaring ∷ [])
      (record { collective = all_none; voided = false }) []

declared_two_out : innermost (codes "a") frame_init (frame_init ∷ declaring ∷ []) ≡ some (2, 5)
unfolding frame_init equal
declared_two_out = refl

reached_two_out :
    (resolve_in_frame
      (codes "a")
      frame_init
      (frame_init ∷ declaring ∷ [])
      (record { collective = all_none; voided = false })
      []).found
    ≡ some (upval, 0)
unfolding resolve_in_frame through_parent capture frame_add_upvalue find_upvalue frame_search
    search_locals frame_init mark_captured equal as_upvalue at_slot declared_or
reached_two_out = refl

-- A local in slot 256 that an inner function refers to: its mark lies beyond the array.
captured_beyond :
    (resolve_in_frame
      (codes "a")
      frame_init
      (record frame_init {
        locals = record { name = codes "a"; slot = some 256; attrib = 0; kind = decl_local } ∷ [];
      }
        ∷ [])
      (record { collective = all_none; voided = false })
      []).overrun
    ≡ true
unfolding resolve_in_frame through_parent capture frame_add_upvalue find_upvalue frame_search
    search_locals frame_init mark_captured equal as_upvalue at_slot declared_or
captured_beyond = refl

parse-Returns_example :
    Returns (assignment ++ end_marker ∷ []) (parse (assignment ++ end_marker ∷ []))
parse-Returns_example = parse-Returns assignment end_marker refl

lex-parse_example :
    (l : TokenList ℕ) × (lex strtod_stub 32 (codes "local a = { b = 1 } return a.b") ≡ some l)
    × (((r : ParseResult ℕ) × (p : Parser ℕ) × (parse l.items ≡ done r p)
          × ResultFits r
          × (r.error ≡ none → p.pos + 1 ≡ length l.items))
        ⊎ ((p : Parser ℕ) × (parse l.items ≡ overrun p) × Wide p))
lex-parse_example = lex-parse strtod_stub 32 (codes "local a = { b = 1 } return a.b") (inl refl)
