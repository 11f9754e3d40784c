-- ===== src/Lexer/Keyword/Names.antt =====
-- The words that keyword_or_ident recognises are the names that tok_kind_name reports.
use lua2wasm.Prelude.{
  ℕ, ◌≤◌, Bytes, length, take, All, arith, ◌≡◌, ◌≢◌, ◌↔◌, ◌⊎◌, inl, inr, refl, sym, ◌∙◌, true, ◌||◌,
  ltb, List, [], ◌∷◌, ◌++◌, Bool-cases, ap, take_all, drop, take-append-drop, length-take,
}
use lua2wasm.Freestanding.Mem.{memcmp, memcmp-zero, is_zero}
use lua2wasm.Lexer.Token.{TokKind, ident, tok_kind_name, is_keyword}
use lua2wasm.Lexer.Keyword.{Keyword, keywords, scan_keywords, keyword_or_ident}

-- A row of the table is well formed: its length is that of its word, and its word is the name of
-- its kind.
abbrev IsRow : Keyword → Type 0
IsRow e = (e.len ≡ length e.kw) × (e.kw ≡ tok_kind_name e.kind)

keywords-IsRow : All IsRow keywords
unfolding tok_kind_name
keywords-IsRow = search (refl, tt) depth 60

-- One row is passed over, or it answers and its test holds.
scan_keywords_step :
    (e : Keyword) (es : List Keyword) (start : Bytes) (len : ℕ)
    → (scan_keywords (e ∷ es) start len ≡ scan_keywords es start len)
      ⊎ ((scan_keywords (e ∷ es) start len ≡ e.kind)
          × (e.len ≡ len)
          × (is_zero (memcmp e.kw start len) ≡ true))
unfolding scan_keywords
scan_keywords_step e es start len = ground arith

row_sound :
    (e : Keyword) (start : Bytes) (len : ℕ)
    → IsRow e
    → len ≤ length start
    → e.len ≡ len
    → is_zero (memcmp e.kw start len) ≡ true
    → take len start ≡ tok_kind_name e.kind
row_sound e start len (l, w) h el z =
    let le : len ≤ length e.kw = omega arith in
    let same = (memcmp-zero len e.kw start le h).0 z in sym same ∙ rw (← el, l, take_all) w

scan_keywords_sound :
    (es : List Keyword) (start : Bytes) (len : ℕ)
    → All IsRow es
    → len ≤ length start
    → scan_keywords es start len ≢ ident
    → take len start ≡ tok_kind_name (scan_keywords es start len)
scan_keywords_sound [] start len rows h ne = absurd (ne (unfold scan_keywords in refl))
scan_keywords_sound (e ∷ es) start len (row, rows) h ne = elim (scan_keywords_step e es start len) [
  | inl passed ↦ rw passed (scan_keywords_sound es start len rows h (rw passed at ne))
  | inr (found, el, z) ↦ rw found (row_sound e start len row h el z)
]

keyword_sound :
    (start : Bytes) (len : ℕ)
    → len ≤ length start
    → keyword_or_ident start len ≢ ident
    → take len start ≡ tok_kind_name (keyword_or_ident start len)
unfolding keyword_or_ident
keyword_sound start len h ne = elim (Bool-cases (ltb len 2 || ltb 8 len)) [
  | inl out ↦ absurd (ne (rw out))
  | inr within ↦
      rw within (scan_keywords_sound keywords start len keywords-IsRow h (rw within at ne))
]

-- The name of a keyword, whatever follows it in the source, is recognised as that keyword.
keyword_complete :
    (k : TokKind) (rest : Bytes)
    → is_keyword k ≡ true
    → keyword_or_ident (tok_kind_name k ++ rest) (length (tok_kind_name k)) ≡ k
unfolding keyword_or_ident tok_kind_name
keyword_complete TokKind.kw_and rest h = refl
keyword_complete _ rest h = cc

keyword-ne-ident : (k : TokKind) → is_keyword k ≡ true → k ≢ ident
keyword-ne-ident k h e = cc (ap is_keyword e)

-- A span of the source is the keyword `k` exactly when its bytes are the name of `k`.
pub keyword-name_iff :
    (k : TokKind) (start : Bytes) (len : ℕ)
    → is_keyword k ≡ true
    → len ≤ length start
    → (keyword_or_ident start len ≡ k) ↔ (take len start ≡ tok_kind_name k)
keyword-name_iff k start len h fits = (
  λ e. rw e at (keyword_sound start len fits (λ i. keyword-ne-ident k h (sym e ∙ i))),
  λ e.
      let whole : tok_kind_name k ++ drop len start ≡ start =
        rw (← e) (take-append-drop len start) in
      let size : length (tok_kind_name k) ≡ len = rw (← e) (length-take len start fits) in
      rw (whole, size) at (keyword_complete k (drop len start) h),
)

abbrev pub IsWord : TokKind → Type 0
IsWord k = (k ≡ ident) ⊎ (is_keyword k ≡ true)

keywords-is_keyword : All (λ e. is_keyword e.kind ≡ true) keywords
keywords-is_keyword = search (tt) depth 60

scan_keywords-IsWord :
    (es : List Keyword) (start : Bytes) (len : ℕ)
    → All (λ e. is_keyword e.kind ≡ true) es
    → IsWord (scan_keywords es start len)
scan_keywords-IsWord [] start len a = inl (unfold scan_keywords in refl)
scan_keywords-IsWord (e ∷ es) start len (h, a) = elim (scan_keywords_step e es start len) [
  | inl passed ↦ rw passed (scan_keywords-IsWord es start len a)
  | inr (found, el, z) ↦ rw found (inr h)
]

-- A word of the source is an identifier or a keyword.
pub keyword-IsWord : (start : Bytes) (len : ℕ) → IsWord (keyword_or_ident start len)
unfolding keyword_or_ident
keyword-IsWord start len = elim (Bool-cases (ltb len 2 || ltb 8 len)) [
  | inl out ↦ rw out (inl refl)
  | inr within ↦ rw within (scan_keywords-IsWord keywords start len keywords-is_keyword)
]

pub keyword-ne-eof : (start : Bytes) (len : ℕ) → keyword_or_ident start len ≢ TokKind.eof
keyword-ne-eof start len e = elim (keyword-IsWord start len) [
  | inl i ↦ cc
  | inr k ↦ cc (ap is_keyword e)
]
