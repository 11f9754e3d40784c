-- ===== src/Parser/Whole.antt =====
-- src/parser.c: the whole parser, on the tokens that the lexer makes.
pub mod Accepts
pub mod Source
use lua2wasm.Prelude.{
  All, ltb, ◌⊎◌, ℕ, zero, suc, ◌+◌, ◌≤◌, ◌<◌, Bytes, length, List, [], ◌∷◌, ◌++◌, Bool, true, false,
  ◌≡◌, refl, arith, Option, none, some, Bool-cases, Option-cases, inl, inr,
}
use lua2wasm.Lexer.Token.{TokKind}
use lua2wasm.Lexer.Scan.{Token}
use lua2wasm.Parser.Kinds.{same_kind}
use lua2wasm.Parser.Ast.{Block}
use lua2wasm.Parser.Scope.{get_elem?}
use lua2wasm.Parser.State.{
  beyond_marks, branch, overrun, Complaint, Parser, Out, done, is_ok, gets, modify, continue, ◌>>=◌,
  ◌>>◌,
}
use lua2wasm.Parser.Resolve.{globals_declare}
use lua2wasm.Parser.Fits.Names.{globals_declare-Fits}
use lua2wasm.Parser.Fits.{FuncFits, Wide, length-take_exact, Fits, Follows, frame_init-Fits}
use lua2wasm.Parser.Steps.{Steps-Safe}
use lua2wasm.Parser.Expr.{parse_prec}
use lua2wasm.Parser.Expr.Ends.{Safe-parse_prec}
use lua2wasm.Parser.Body.{parse_function_body_ex}
use lua2wasm.Parser.Body.Ends.{Safe-parse_function_body_ex}
use lua2wasm.Parser.Safe.{Ended, Moves, Safe}
use lua2wasm.Parser.Statements.Blocks.{
  Steps-parse_stmt, Safe-parse_main, Safe-parse_block, CallsSafe-tie,
}
use lua2wasm.Parser.Whole.Accepts.{EndsBlock, parse_block-EndsBlock}
use lua2wasm.Parser.Block.{
  parse_stmt, is_block_end, ParseResult, tie, finish_parse, parse_block, parse_main, parse, initial,
  predeclared, well_known, declare_all,
}

nonempty-last : {F : Type 0} (ts : List (Token F)) (last : Token F) → 0 < length (ts ++ last ∷ [])
nonempty-last [] last = omega arith
nonempty-last (t ∷ ts) last = omega arith

marker_kind :
    {F : Type 0} (a t : Token F)
    → a.kind ≡ TokKind.eof
    → some a ≡ some t
    → same_kind t.kind TokKind.eof ≡ true
unfolding same_kind
marker_kind a t e h = grind arith

last_alone :
    {F : Type 0} (ts : List (Token F)) (last : Token F)
    → last.kind ≡ TokKind.eof
    → (i : ℕ) (t : Token F) → get_elem? (ts ++ last ∷ []) i ≡ some t
    → same_kind t.kind TokKind.eof ≡ false
    → i + 1 < length (ts ++ last ∷ [])
unfolding same_kind
last_alone [] last e zero t h k = let m = marker_kind last t e h in absurd (ground arith)
last_alone [] last e (suc i) t h k = absurd (ground arith)
last_alone (u ∷ ts) last e zero t h k = (let z = nonempty-last ts last in omega arith)
last_alone (u ∷ ts) last e (suc i) t h k = let more = last_alone ts last e i t h k in omega arith

-- A list that an end marker ends.
pub Ended-last :
    {F : Type 0} (ts : List (Token F)) (last : Token F)
    → last.kind ≡ TokKind.eof
    → Ended (ts ++ last ∷ [])
Ended-last ts last e = record {
  nonempty = nonempty-last ts last;
  last_is_eof = last_alone ts last e;
}

-- The parser ended without an error only at an end marker.
abbrev AtMarker : {F : Type 0} → List (Token F) → Out F (ParseResult F) → Type 0
AtMarker {F = F} toks (done r p) =
    r.error ≡ none → (t : Token F) × (get_elem? toks p.pos ≡ some t) × (t.kind ≡ TokKind.eof)
AtMarker toks (overrun p) = Unit
AtMarker toks Out.fault = Unit
AtMarker toks Out.stuck = Unit

same_kind-eof : (k : TokKind) → same_kind k TokKind.eof ≡ true → k ≡ TokKind.eof
unfolding same_kind
same_kind-eof k h = ground arith

block_end_kind :
    (k : TokKind) → is_block_end k (TokKind.eof ∷ []) ≡ true → same_kind k TokKind.eof ≡ true
unfolding is_block_end
block_end_kind k h = ground arith

no_error : {F : Type 0} (p : Parser F) → p.error ≡ none → is_ok p ≡ true
no_error p e = ground arith

declare_all-Fits : (gs names : List Bytes) → length gs ≤ 256 → length (declare_all gs names) ≤ 256
declare_all-Fits gs [] h = h
declare_all-Fits gs (name ∷ names) h =
    declare_all-Fits (globals_declare gs name).0 names (globals_declare-Fits gs name h)

predeclared-Fits : length predeclared ≤ 256
unfolding predeclared
predeclared-Fits = declare_all-Fits [] well_known (omega arith)

pub initial-Fits : (F : Type 0) → Fits {F = F} initial
unfolding initial
initial-Fits F = (frame_init-Fits, tt, predeclared-Fits, tt)

-- The result's tables are within their length: each function has at most 64 upvalues, at most 256
-- slots, and a mark for each slot; the main chunk has a mark for each of at most 256 slots.
abbrev pub ResultFits : {F : Type 0} → ParseResult F → Type 0
ResultFits r =
    (length r.globals ≤ 256)
    × (length r.main_captured ≡ r.main_n_locals)
    × (r.main_n_locals ≤ 256)
    × All FuncFits r.funcs

abbrev OutFits : {F : Type 0} → Out F (ParseResult F) → Type 0
OutFits (done r p) = Fits p → ResultFits r
OutFits (overrun p) = Unit
OutFits Out.fault = Unit
OutFits Out.stuck = Unit

module _ {F : Type 0} (toks : List (Token F)) where
  finish_parse-AtMarker :
      (main : Block F) (p : Parser F)
      → EndsBlock toks (TokKind.eof ∷ []) (done main p)
      → AtMarker toks (finish_parse main p)
  unfolding finish_parse gets branch beyond_marks ◌>>=◌
  finish_parse-AtMarker main p e =
      elim (Bool-cases (ltb (length p.frame.captured) p.frame.next_slot)) [
        | inl w ↦ rw (w, AtMarker) tt
        | inr w ↦
            rw (w, AtMarker)
              (λ h.
                let (t, s, b) = e (no_error p h) in
                (t, s, same_kind-eof t.kind (block_end_kind t.kind b)))
      ]

  finish_parse-OutFits : (main : Block F) (p : Parser F) → OutFits (finish_parse main p)
  unfolding finish_parse gets branch beyond_marks ◌>>=◌
  finish_parse-OutFits main p =
      elim (Bool-cases (ltb (length p.frame.captured) p.frame.next_slot)) [
        | inl w ↦ rw (w, OutFits) tt
        | inr w ↦
            rw (w, OutFits)
              (λ f.
                let marks = f.0.2 in
                let n = length-take_exact p.frame.next_slot p.frame.captured (ground arith) in
                (f.2, n, ground arith, f.3))
      ]

  result-AtMarker :
      (r : Out F (Block F))
      → EndsBlock toks (TokKind.eof ∷ []) r
      → AtMarker toks (continue r finish_parse)
  result-AtMarker (done main p) e = finish_parse-AtMarker main p e
  result-AtMarker (overrun p) e = tt
  result-AtMarker Out.fault e = tt
  result-AtMarker Out.stuck e = tt

  result-OutFits : (r : Out F (Block F)) → OutFits (continue r finish_parse)
  result-OutFits (done main p) = finish_parse-OutFits main p
  result-OutFits (overrun p) = tt
  result-OutFits Out.fault = tt
  result-OutFits Out.stuck = tt

  -- The parser came back with a result, or it came to the end of captured[] in a function that
  -- uses more than 256 slots.
  abbrev pub Returns : Out F (ParseResult F) → Type 0
  Returns o =
      ((r : ParseResult F) × (p : Parser F) × (o ≡ done r p)
        × (p.pos < length toks)
        × (r.error ≡ none
            → (t : Token F) × (get_elem? toks p.pos ≡ some t) × (t.kind ≡ TokKind.eof))
        × Fits p
        × ResultFits r)
      ⊎ ((p : Parser F) × (o ≡ overrun p) × Wide p)

  conclude :
      (o : Out F (ParseResult F)) → Moves toks initial o → AtMarker toks o → OutFits o → Returns o
  conclude (done r p) (l, k, s) m fits =
      let f = s.fits (initial-Fits F) in inl (r, p, refl, k, m, f, fits f)
  conclude (overrun p) k m fits = inr (p, refl, k (initial-Fits F))
  conclude Out.fault k m fits = elim k [ ]
  conclude Out.stuck k m fits = elim k [ ]

-- On every list of tokens that an end marker ends, `parse` either returns or comes to a use of
-- captured[] beyond its end, and then a function on the stack of frames uses more than 256 slots.
-- In both cases its loops and its recursion end, no token is read beyond the list, and no code
-- that is marked unreachable is run. Where it returns, the cursor is left within the list, where
-- no error is reported it stands at an end marker, the tables of the parser are within their
-- length, and so are those of every function of the result: 64 upvalues, 256 slots and a mark for
-- each slot, and 256 globals.
pub parse-Returns :
    {F : Type 0} (ts : List (Token F)) (last : Token F)
    → last.kind ≡ TokKind.eof
    → Returns (ts ++ last ∷ []) (parse (ts ++ last ∷ []))
unfolding parse parse_main tie ◌>>=◌ initial
parse-Returns ts last e =
    let toks = ts ++ last ∷ [] in
    let some_token = nonempty-last ts last in
    conclude toks (parse toks)
      ((Safe-parse_main (Ended-last ts last e)).at initial (omega arith) some_token)
      (result-AtMarker toks _
        (parse_block-EndsBlock toks (TokKind.eof ∷ []) (tie toks (length toks)) initial))
      (result-OutFits toks (parse_block toks (tie toks (length toks)) (TokKind.eof ∷ []) initial))

-- The action ended with the error recorded, or at the end of captured[] where a function on the
-- stack of frames uses more than 256 slots.
abbrev pub Keeps : {F A : Type 0} → ℕ × Complaint → Out F A → Type 0
Keeps e (done a q) = q.error ≡ some e
Keeps e (overrun q) = Wide q
Keeps e Out.fault = ⊥
Keeps e Out.stuck = ⊥

kept :
    {F A : Type 0} (toks : List (Token F)) (p : Parser F) (e : ℕ × Complaint) (o : Out F A)
    → p.error ≡ some e
    → Fits p
    → Moves toks p o
    → Keeps e o
kept toks p e (done a q) h f (l, k, s) = s.keeps e h
kept toks p e (overrun q) h f k = k f
kept toks p e Out.fault h f k = elim k [ ]
kept toks p e Out.stuck h f k = elim k [ ]

-- The error that is recorded first stays. From a parser with a recorded error, its cursor within
-- the tokens and its tables within their length, a statement (whose parsers go on until they next
-- test for an error), an expression of any least precedence and a function's body are parsed, and
-- the same error is recorded at the end; or a use of captured[] beyond its end comes first, in a
-- function that uses more than 256 slots.
pub parse_stmt-error :
    {F : Type 0} (ts : List (Token F)) (last : Token F) (p : Parser F) (e : ℕ × Complaint)
    (min_prec line : ℕ) (with_self : Bool)
    → last.kind ≡ TokKind.eof
    → p.pos < length (ts ++ last ∷ [])
    → 0 < min_prec
    → Fits p
    → p.error ≡ some e
    → Keeps e
        (parse_stmt (ts ++ last ∷ []) (tie (ts ++ last ∷ []) (suc (length (ts ++ last ∷ [])))) p)
      × Keeps e (
          parse_prec
            (ts ++ last ∷ [])
            (tie (ts ++ last ∷ []) (suc (length (ts ++ last ∷ []))))
            min_prec
            p)
      × Keeps e (
          parse_function_body_ex
            (ts ++ last ∷ [])
            (tie (ts ++ last ∷ []) (suc (length (ts ++ last ∷ [])))).parse_block
            line
            with_self
            p)
parse_stmt-error ts last p e min_prec line with_self k within h fits pe =
    let toks = ts ++ last ∷ [] in
    let c = tie toks (suc (length toks)) in
    let ended = Ended-last ts last k in
    let safe = CallsSafe-tie ended 1 (suc (length toks)) (omega arith) in
    let stmt = Steps-Safe (parse_stmt toks c) (Steps-parse_stmt ended c {lo = 0} safe) in
    let prec = Safe-parse_prec ended c min_prec h {lo = 0} safe in
    let body_calls = CallsSafe-tie ended 0 (suc (length toks)) (omega arith) in
    let body =
      Safe-parse_function_body_ex ended {lo = 0} c.parse_block (λ stops. body_calls.blk stops) line
        with_self in
    (
      kept toks p e _ pe fits (stmt.at p (omega arith) within),
      kept toks p e _ pe fits (prec.at p (omega arith) within),
      kept toks p e _ pe fits (body.at p (omega arith) within),
    )
