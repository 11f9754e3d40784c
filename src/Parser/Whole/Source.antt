-- ===== src/Parser/Whole/Source.antt =====
-- src/lexer.c and src/parser.c together, from the source to the tree.
use lua2wasm.Prelude.{
  ◌⊎◌, inl, inr, ℕ, zero, suc, ◌+◌, Bytes, length, drop, List, [], ◌∷◌, ◌++◌, none, some, ◌≡◌, refl,
  sym, ap, ◌∙◌, arith,
}
use lua2wasm.Lexer.Token.{TokKind}
use lua2wasm.Lexer.Text.Digits.{IsUlong}
use lua2wasm.Lexer.Scan.{Token, TokenList, lex}
use lua2wasm.Lexer.Scan.Spans.{Spans, lex-Spans}
use lua2wasm.Parser.Scope.{get_elem?}
use lua2wasm.Parser.State.{Parser, done, overrun}
use lua2wasm.Parser.Fits.{Wide}
use lua2wasm.Parser.Block.{ParseResult, parse}
use lua2wasm.Parser.Whole.{ResultFits, parse-Returns}

length-last :
    {F : Type 0} (ts : List (Token F)) (last : Token F) → length (ts ++ last ∷ []) ≡ length ts + 1
length-last [] last = refl
length-last (t ∷ ts) last = let ih = length-last ts last in omega arith

same_token :
    {F : Type 0} (a t : Token F) → some a ≡ some t → t.kind ≡ TokKind.eof → a.kind ≡ TokKind.eof
same_token a t h e = grind arith

-- Only the last token is an end marker.
marker_position :
    {F : Type 0} (source : Bytes) (line : ℕ) (ts : List (Token F)) (last : Token F) (i : ℕ)
    → Spans source line ts
    → (t : Token F) → get_elem? (ts ++ last ∷ []) i ≡ some t
    → t.kind ≡ TokKind.eof
    → i ≡ length ts
marker_position source line [] last zero s t h e = refl
marker_position source line [] last (suc i) s t h e = absurd (ground arith)
marker_position source line (u ∷ ts) last zero (_, _, _, _, ne, s) t h e =
    absurd (ne (same_token u t h e))
marker_position source line (u ∷ ts) last (suc i) (_, _, _, _, ne, s) t h e =
    ap suc (marker_position (drop u.len u.start) u.line ts last i s t h e)

-- On every source, in both builds, the lexer returns a list of tokens on which the parser returns,
-- or else comes to a use of captured[] beyond its end in a function that uses more than 256 slots.
-- Where it returns without an error it has read every token up to the end marker, and the tables
-- of the result are within their length.
pub lex-parse :
    {F : Type 0} (strtod : Bytes → F) (ulong : ℕ) (source : Bytes)
    → IsUlong ulong
    → (l : TokenList F) × (lex strtod ulong source ≡ some l)
      × (((r : ParseResult F) × (p : Parser F) × (parse l.items ≡ done r p)
            × ResultFits r
            × (r.error ≡ none → p.pos + 1 ≡ length l.items))
          ⊎ ((p : Parser F) × (parse l.items ≡ overrun p) × Wide p))
lex-parse strtod ulong source u =
    let (l, ts, last, lexed, items, spans, kind) = lex-Spans strtod ulong source u in
    (
      l,
      lexed,
      elim (parse-Returns ts last kind) [
        | inl (r, p, parsed, within, at_end, fits, tables) ↦ inl (
          r,
          p,
          ap parse items ∙ parsed,
          tables,
          λ ok.
              let (t, e, k) = at_end ok in
              let here = marker_position source 1 ts last p.pos spans t e k in
              ap (λ n. n + 1) here ∙ sym (ap length items ∙ length-last ts last),
        )
        | inr (p, parsed, wide) ↦ inr (p, ap parse items ∙ parsed, wide)
      ],
    )
