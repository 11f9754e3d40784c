-- ===== src/Wat/Trivia/Skips.antt =====
-- skip_trivia ends, at a byte that begins a node or closes a list.
use lua2wasm.Prelude.{
  ◌⊎◌, ◌≢◌, ℕ, zero, suc, ◌+◌, ◌≤◌, ◌<◌, Bytes, length, drop, false, not, ◌&&◌, ◌==◌, [], ◌∷◌,
  Option, some, arith, ◌≡◌, refl, Bool-cases, inl, inr,
}
use lua2wasm.Freestanding.Mem.{peek, peek1}
use lua2wasm.Lexer.Number.{skip_while}
use lua2wasm.Lexer.Cursor.{
  Tail, Tail-refl, Tail-cons, Tail-of_Moved, Tail-trans, drop-Tail, skip_while-Tail,
}
use lua2wasm.Wat.Trivia.{is_space, skip_block, trivia_loop, skip_trivia}

pub skip_block-Tail : (d : ℕ) (p : Bytes) → Tail (skip_block d p) p
unfolding skip_block
skip_block-Tail zero p = Tail-refl p
skip_block-Tail (suc d) [] = Tail-refl []
skip_block-Tail (suc d) (c ∷ []) = Tail-of_Moved (Tail-cons c (Tail-refl []))
skip_block-Tail (suc d) (c ∷ e ∷ rest) =
    let behind = λ (q : Bytes) (t : Tail q rest). Tail-trans t (drop-Tail 2 (c ∷ e ∷ rest)) in
    ground (
      arith,
      behind _ (skip_block-Tail (suc (suc d)) rest),
      behind _ (skip_block-Tail d rest),
      Tail-of_Moved (Tail-cons c (skip_block-Tail (suc d) (e ∷ rest))),
    )

-- Neither white space nor a comment begins at the cursor.
pub record Starts (q : Bytes) : Type 0 where
  pub no_space : is_space (peek q) ≡ false
  pub no_line : (peek q == 59 && peek1 q == 59) ≡ false
  pub no_block : (peek q == 40 && peek1 q == 59) ≡ false

abbrev pub IsWhite : ℕ → Type 0
IsWhite c = (c ≡ 32) ⊎ (c ≡ 9) ⊎ (c ≡ 10) ⊎ (c ≡ 13)

-- Within `d` comments, the text goes on to what stands behind them, or to its end.
pub data Inside : ℕ → Bytes → Bytes → Type 0 where
  closed : (p : Bytes) → Inside 0 p p
  unclosed : (d : ℕ) → Inside (suc d) [] []
  opens :
      {d c e : ℕ} {p q : Bytes}
      → c ≡ 40
      → e ≡ 59
      → Inside (suc (suc d)) p q
      → Inside (suc d) (c ∷ e ∷ p) q
  closes : {d c e : ℕ} {p q : Bytes} → c ≡ 59 → e ≡ 41 → Inside d p q → Inside (suc d) (c ∷ e ∷ p) q
  passes :
      {d c : ℕ} {p q : Bytes}
      → ¬ ((c ≡ 40) × (peek p ≡ 59))
      → ¬ ((c ≡ 59) × (peek p ≡ 41))
      → Inside (suc d) p q
      → Inside (suc d) (c ∷ p) q

-- A line comment goes on to the next newline, or to the end of the text.
pub data ToNewline : Bytes → Bytes → Type 0 where
  newline : {c : ℕ} {p : Bytes} → c ≡ 10 → ToNewline (c ∷ p) (c ∷ p)
  text_end : ToNewline [] []
  over : {c : ℕ} {p q : Bytes} → c ≢ 10 → ToNewline p q → ToNewline (c ∷ p) q

-- White space, line comments and nested block comments stand before `q`, and none at its front.
pub data Trivia : Bytes → Bytes → Type 0 where
  no_more :
      {q : Bytes}
      → ¬ IsWhite (peek q)
      → ¬ ((peek q ≡ 59) × (peek1 q ≡ 59))
      → ¬ ((peek q ≡ 40) × (peek1 q ≡ 59))
      → Trivia q q
  white : {c : ℕ} {p q : Bytes} → IsWhite c → Trivia p q → Trivia (c ∷ p) q
  line :
      {c e : ℕ} {p r q : Bytes}
      → c ≡ 59
      → e ≡ 59
      → ToNewline p r
      → Trivia r q
      → Trivia (c ∷ e ∷ p) q
  block :
      {c e : ℕ} {p r q : Bytes} → c ≡ 40 → e ≡ 59 → Inside 1 p r → Trivia r q → Trivia (c ∷ e ∷ p) q

-- Where the white space and comments of `p` end.
pub record Skips (p : Bytes) (o : Option Bytes) : Type 0 where
  pub rest : Bytes
  pub returns : o ≡ some rest
  pub tail : Tail rest p
  pub trivia : Trivia p rest
  pub starts : Starts rest

skip_while-space : (p : Bytes) → is_space (peek (skip_while is_space p)) ≡ false
unfolding skip_while
skip_while-space [] = unfold is_space in refl
skip_while-space (c ∷ cs) = elim (Bool-cases (is_space c)) [
  | inl e ↦ rw e (skip_while-space cs)
  | inr e ↦ rw e e
]

-- A comment at `q` takes two bytes.
two_taken : (q r : Bytes) → peek1 q ≡ 59 → Tail r (drop 2 q) → length r + 2 ≤ length q
two_taken [] r h t = absurd (omega arith)
two_taken (c ∷ []) r h t = absurd (omega arith)
two_taken (c ∷ d ∷ rest) r h t = let w = t.within in omega arith

skip_block-Inside : (d : ℕ) (p : Bytes) → Inside d p (skip_block d p)
unfolding skip_block
skip_block-Inside zero p = closed p
skip_block-Inside (suc d) [] = unclosed d
skip_block-Inside (suc d) (c ∷ []) = passes (λ h. ground arith) (λ h. ground arith) (unclosed d)
skip_block-Inside (suc d) (c ∷ e ∷ rest) = elim (Bool-cases (c == 40 && e == 59)) [
  | inl h ↦ rw h (opens (ground arith) (ground arith) (skip_block-Inside (suc (suc d)) rest))
  | inr h ↦ elim (Bool-cases (c == 59 && e == 41)) [
    | inl k ↦ rw (h, k) (closes (ground arith) (ground arith) (skip_block-Inside d rest))
    | inr k ↦
        rw (h, k)
          (passes (λ g. ground arith) (λ g. ground arith) (skip_block-Inside (suc d) (e ∷ rest)))
  ]
]

skip_while-ToNewline : (p : Bytes) → ToNewline p (skip_while (λ c. not (c == 10)) p)
unfolding skip_while
skip_while-ToNewline [] = text_end
skip_while-ToNewline (c ∷ cs) = elim (Bool-cases (not (c == 10))) [
  | inl h ↦ rw h (over (λ e. ground arith) (skip_while-ToNewline cs))
  | inr h ↦ rw h (newline (ground arith))
]

-- The white space that is skipped.
white_skipped : (p q : Bytes) → Trivia (skip_while is_space p) q → Trivia p q
unfolding skip_while is_space
white_skipped [] q t = t
white_skipped (c ∷ cs) q t = elim (Bool-cases (is_space c)) [
  | inl h ↦ white (ground arith) (white_skipped cs q (rw h at t))
  | inr h ↦ rw h at t
]

line_skipped :
    (p q : Bytes)
    → peek p ≡ 59
    → peek1 p ≡ 59
    → Trivia (skip_while (λ c. not (c == 10)) (drop 2 p)) q
    → Trivia p q
line_skipped [] q g h t = absurd (omega arith)
line_skipped (c ∷ []) q g h t = absurd (omega arith)
line_skipped (c ∷ e ∷ p) q g h t = line g h (skip_while-ToNewline p) t

block_skipped :
    (p q : Bytes) → peek p ≡ 40 → peek1 p ≡ 59 → Trivia (skip_block 1 (drop 2 p)) q → Trivia p q
block_skipped [] q g h t = absurd (omega arith)
block_skipped (c ∷ []) q g h t = absurd (omega arith)
block_skipped (c ∷ e ∷ p) q g h t = block g h (skip_block-Inside 1 p) t

Starts-no_more : (q : Bytes) → Starts q → Trivia q q
unfolding is_space
Starts-no_more q s =
    let a = s.no_space in
    let b = s.no_line in
    let d = s.no_block in no_more (λ h. ground arith) (λ h. ground arith) (λ h. ground arith)

Skips-behind :
    {p q : Bytes} {o : Option Bytes}
    → Tail q p
    → ((r : Bytes) → Trivia q r → Trivia p r)
    → Skips q o
    → Skips p o
Skips-behind t f s = record {
  rest = s.rest;
  returns = s.returns;
  tail = Tail-trans s.tail t;
  trivia = f s.rest s.trivia;
  starts = s.starts;
}

trivia_loop-Skips : (fuel : ℕ) (p : Bytes) → length p < fuel → Skips p (trivia_loop fuel p)
unfolding trivia_loop
trivia_loop-Skips zero p h = absurd (omega arith)
trivia_loop-Skips (suc fuel) p h =
    let q = skip_while is_space p in
    let space = skip_while-Tail is_space p in
    let short = space.within in
    let again =
      λ (r : Bytes) (second : peek1 q ≡ 59) (t : Tail r (drop 2 q))
          (f : (s : Bytes) → Trivia r s → Trivia q s).
        let two = two_taken q r second t in
        Skips-behind (Tail-trans t (Tail-trans (drop-Tail 2 q) space))
          (λ s m. white_skipped p s (f s m)) (trivia_loop-Skips fuel r (omega arith)) in
    elim (Bool-cases (peek q == 59 && peek1 q == 59)) [
      | inl e ↦ rw e (
          again _ (ground arith) (skip_while-Tail (λ c. not (c == 10)) (drop 2 q))
            (λ s m. line_skipped q s (ground arith) (ground arith) m))
      | inr e ↦ rw e (elim (Bool-cases (peek q == 40 && peek1 q == 59)) [
        | inl f ↦ rw f (
            again _ (ground arith) (skip_block-Tail 1 (drop 2 q))
              (λ s m. block_skipped q s (ground arith) (ground arith) m))
        | inr f ↦
            let starts : Starts q = record {
              no_space = skip_while-space p;
              no_line = e;
              no_block = f;
            } in
            rw f (record {
              rest = q;
              returns = refl;
              tail = space;
              trivia = white_skipped p q (Starts-no_more q starts);
              starts = starts;
            })
      ])
    ]

-- On any text skip_trivia returns the cursor behind the white space, the line comments and the
-- nested block comments that stand there, each recognised by its own marks: a line comment ends
-- before a newline, a block comment behind as many `;)` as `(;`, and both at the end of the text.
-- At the cursor neither white space nor a comment begins.
pub skip_trivia-Skips : (p : Bytes) → Skips p (skip_trivia p)
unfolding skip_trivia
skip_trivia-Skips p = trivia_loop-Skips (length p + 1) p (omega arith)
