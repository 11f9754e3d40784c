-- ===== src/Lexer/Scan/Spans.antt =====
-- `lex` is total, and its tokens are spans of the source in order.
use lua2wasm.Prelude.{
  ℕ, zero, suc, ◌+◌, ◌-◌, ◌≤◌, ◌<◌, Bytes, List, length, drop, not, ◌&&◌, ◌==◌, Option, none, some,
  [], ◌∷◌, ◌++◌, arith, ◌≡◌, ◌≢◌, refl, sym, ◌∙◌, inl, inr, Bool-cases, append_assoc,
}
use lua2wasm.Freestanding.Mem.{peek}
use lua2wasm.Lexer.Token.{TokKind}
use lua2wasm.Lexer.Text.{Message}
use lua2wasm.Lexer.Text.Digits.{IsUlong}
use lua2wasm.Lexer.Number.{skip_while}
use lua2wasm.Lexer.Cursor.{Tail, Moved, Tail-refl, Tail-of_Moved, Tail-trans, skip_while-Tail}
use lua2wasm.Lexer.Scan.{
  Token, TokenList, Scan, skip, push, halt, fault, scan, finish, lex_loop, lex,
}
use lua2wasm.Lexer.Scan.Steps.{Stands, Advances}
use lua2wasm.Lexer.Scan.Progress.{scan-Advances}

-- The tokens of the text `p`, from the line on: each begins at a cursor behind the token before
-- it, ends within the text, is not empty, stands on no earlier line and is no end marker.
abbrev pub Spans : {F : Type 0} → Bytes → ℕ → List (Token F) → Type 0
Spans p line [] = Unit
Spans p line (t ∷ ts) =
    Tail t.start p
    × (line ≤ t.line)
    × (0 < t.len)
    × (t.len ≤ length t.start)
    × (t.kind ≢ TokKind.eof)
    × Spans (drop t.len t.start) t.line ts

-- The result of the loop at `p`: some tokens behind those pushed before, then one end marker.
record Lexed {F : Type 0} (p : Bytes) (line : ℕ) (items : List (Token F)) (o : Option (TokenList F))
    : Type 0 where
  list : TokenList F
  tokens : List (Token F)
  last : Token F
  returns : o ≡ some list
  items_are : list.items ≡ items ++ (tokens ++ last ∷ [])
  spans : Spans p line tokens
  last_is : last.kind ≡ TokKind.eof

Spans-weaken :
    {F : Type 0} {p' p : Bytes} {l' l : ℕ} (ts : List (Token F))
    → Tail p' p
    → l ≤ l'
    → Spans p' l' ts
    → Spans p l ts
Spans-weaken [] t h s = tt
Spans-weaken (x ∷ ts) t h (s, k, z, f, e, r) = (Tail-trans s t, omega arith, z, f, e, r)

module _ {F : Type 0} (strtod : Bytes → F) where
  finish-Lexed :
      (p0 p : Bytes) (line0 line : ℕ) (items : List (Token F)) (err : Option (ℕ × Message))
      → Lexed p0 line0 items (finish strtod p line items err)
  unfolding finish
  finish-Lexed p0 p line0 line items err = record {
    list = _;
    tokens = [];
    last = _;
    returns = refl;
    items_are = refl;
    spans = tt;
    last_is = refl;
  }

  after_skip :
      {p' p : Bytes} {l' l : ℕ} {items : List (Token F)} {o : Option (TokenList F)}
      → Moved p' p
      → l ≤ l'
      → Lexed p' l' items o
      → Lexed p l items o
  after_skip m h r = record {
    list = r.list;
    tokens = r.tokens;
    last = r.last;
    returns = r.returns;
    items_are = r.items_are;
    spans = Spans-weaken r.tokens (Tail-of_Moved m) h r.spans;
    last_is = r.last_is;
  }

  after_push :
      {p' p : Bytes} {l' l : ℕ} {items : List (Token F)} {o : Option (TokenList F)} (t : Token F)
      → Moved p' p
      → l ≤ l'
      → Stands p l t p'
      → Lexed p' l' (items ++ t ∷ []) o
      → Lexed p l items o
  after_push {p' = p'} {p = p} {l' = l'} {l = l} {items = items} t m h s r =
      let shorter = m.shorter in
      let size : length p - length p' ≡ t.len = omega (arith, s.len_is) in
      let behind : drop t.len t.start ≡ p' = rw s.start_is (rw size at (sym m.suffix)) in
      let rest : Spans p' t.line r.tokens =
        Spans-weaken r.tokens (Tail-refl p') (omega (arith, s.line_is)) r.spans in
      record {
        list = r.list;
        tokens = t ∷ r.tokens;
        last = r.last;
        returns = r.returns;
        items_are = r.items_are ∙ append_assoc items (t ∷ []) (r.tokens ++ r.last ∷ []);
        spans = (
          rw s.start_is (Tail-refl p),
          omega (arith, s.line_is),
          omega (arith, s.len_is),
          rw s.start_is (omega (arith, s.len_is)),
          s.kind_ne_eof,
          rw behind rest,
        );
        last_is = r.last_is;
      }

  after :
      (ulong fuel c : ℕ) {line : ℕ} {cs : Bytes} {items : List (Token F)} (r : Scan F)
      → Advances (c ∷ cs) line r
      → ((p : Bytes) (l : ℕ) (its : List (Token F))
          → length p < length (c ∷ cs)
          → Lexed p l its (lex_loop strtod ulong fuel p l its))
      → Lexed (c ∷ cs) line items (elim r [
        | skip p' l ↦ lex_loop strtod ulong fuel p' l items
        | push t p' l ↦ lex_loop strtod ulong fuel p' l (items ++ t ∷ [])
        | halt p' l at why ↦ finish strtod p' l items (some (at, why))
        | fault ↦ none
      ])
  after ulong fuel c {items = items} (skip p' l) (m, h) rec =
      after_skip m h (rec p' l items m.shorter)
  after ulong fuel c {items = items} (push t p' l) (m, h, s) rec =
      after_push t m h s (rec p' l (items ++ t ∷ []) m.shorter)
  after ulong fuel c {items = items} (halt p' l at why) a rec =
      finish-Lexed _ p' _ l items (some (at, why))
  after ulong fuel c fault a rec = absurd a

  lex_loop-Lexed :
      (ulong fuel : ℕ) (p : Bytes) (line : ℕ) (items : List (Token F))
      → IsUlong ulong
      → length p < fuel
      → Lexed p line items (lex_loop strtod ulong fuel p line items)
  unfolding lex_loop
  lex_loop-Lexed ulong zero p line items u h = elim h [ ]
  lex_loop-Lexed ulong (suc fuel) [] line items u h = finish-Lexed [] [] line line items none
  lex_loop-Lexed ulong (suc fuel) (c ∷ cs) line items u h = elim (Bool-cases (c == 0)) [
    | inl e ↦ rw e (finish-Lexed (c ∷ cs) (c ∷ cs) line line items none)
    | inr e ↦ rw e (
        after ulong fuel c (scan strtod ulong (c ∷ cs) line)
          (scan-Advances strtod ulong c cs line u)
          (λ p' l its k. lex_loop-Lexed ulong fuel p' l its u (omega arith)))
  ]

-- `lex` returns on every source, in both builds: no loop is left unfinished and no buffer is
-- overrun. Its list is some tokens and one end marker; each token lies within the source, is not
-- empty, begins where the one before it ends or behind that, on no earlier line, and is not an
-- end marker itself.
pub lex-Spans :
    {F : Type 0} (strtod : Bytes → F) (ulong : ℕ) (source : Bytes)
    → IsUlong ulong
    → (r : TokenList F) × (ts : List (Token F)) × (last : Token F) × (lex strtod ulong source
        ≡ some r)
      × (r.items ≡ ts ++ last ∷ [])
      × Spans source 1 ts
      × (last.kind ≡ TokKind.eof)
unfolding lex
lex-Spans strtod ulong source u =
    let skipped = skip_while-Tail (λ c. not (c == 0) && not (c == 10)) source in
    elim (Bool-cases (peek source == b'#')) [
      | inl e ↦
          let within = skipped.within in
          let r =
            lex_loop-Lexed strtod ulong (length source + 1)
              (skip_while (λ c. not (c == 0) && not (c == 10)) source) 1 [] u (omega arith) in
          rw e (
            r.list,
            r.tokens,
            r.last,
            r.returns,
            r.items_are,
            Spans-weaken r.tokens skipped (omega arith) r.spans,
            r.last_is,
          )
      | inr e ↦
          let r = lex_loop-Lexed strtod ulong (length source + 1) source 1 [] u (omega arith) in
          rw e (r.list, r.tokens, r.last, r.returns, r.items_are, r.spans, r.last_is)
    ]
