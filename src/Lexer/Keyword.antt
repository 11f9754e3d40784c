-- ===== src/Lexer/Keyword.antt =====
-- src/lexer.c, KEYWORDS and keyword_or_ident.
pub mod Names
use lua2wasm.Prelude.{
  ℕ, zero, suc, ◌<◌, ◌≤◌, Bytes, codes, length, take, All, arith, ◌≡◌, ◌≢◌, ◌↔◌, ◌⊎◌, inl, inr,
  refl, sym, ◌∙◌, Bool, true, false, not, ◌&&◌, ◌||◌, ◌==◌, ltb, if◌then◌else◌, List, [], ◌∷◌, ◌++◌,
  Bool-cases,
}
use lua2wasm.Freestanding.Mem.{peek, memcmp, is_zero}
use lua2wasm.Lexer.Token.{TokKind, ident, tok_kind_name, is_keyword}

pub record Keyword : Type 0 where
  pub kw : Bytes
  pub len : ℕ
  pub kind : TokKind

abbrev entry : Bytes → ℕ → TokKind → Keyword
entry k n t = record { kw = k; len = n; kind = t }

abbrev pub keywords : List Keyword
keywords =
    entry (codes "do") 2 TokKind.kw_do
    ∷ entry (codes "if") 2 TokKind.kw_if
    ∷ entry (codes "in") 2 TokKind.kw_in
    ∷ entry (codes "or") 2 TokKind.kw_or
    ∷ entry (codes "and") 3 TokKind.kw_and
    ∷ entry (codes "end") 3 TokKind.kw_end
    ∷ entry (codes "for") 3 TokKind.kw_for
    ∷ entry (codes "nil") 3 TokKind.kw_nil
    ∷ entry (codes "not") 3 TokKind.kw_not
    ∷ entry (codes "else") 4 TokKind.kw_else
    ∷ entry (codes "goto") 4 TokKind.kw_goto
    ∷ entry (codes "then") 4 TokKind.kw_then
    ∷ entry (codes "true") 4 TokKind.kw_true
    ∷ entry (codes "break") 5 TokKind.kw_break
    ∷ entry (codes "false") 5 TokKind.kw_false
    ∷ entry (codes "local") 5 TokKind.kw_local
    ∷ entry (codes "until") 5 TokKind.kw_until
    ∷ entry (codes "while") 5 TokKind.kw_while
    ∷ entry (codes "elseif") 6 TokKind.kw_elseif
    ∷ entry (codes "repeat") 6 TokKind.kw_repeat
    ∷ entry (codes "return") 6 TokKind.kw_return
    ∷ entry (codes "function") 8 TokKind.kw_function
    ∷ []

-- The loop over the table: length, first byte, then memcmp.
scan_keywords : List Keyword → Bytes → ℕ → TokKind
scan_keywords [] start len = ident
scan_keywords (e ∷ es) start len =
    let rest = scan_keywords es start len in
    if not (e.len == len)
    then rest
    else if not (peek e.kw == peek start)
    then rest
    else if is_zero (memcmp e.kw start len)
    then e.kind
    else rest

unfoldable pub keyword_or_ident : Bytes → ℕ → TokKind
unfolding scan_keywords memcmp
keyword_or_ident start len =
    if ltb len 2 || ltb 8 len then ident else scan_keywords keywords start len
