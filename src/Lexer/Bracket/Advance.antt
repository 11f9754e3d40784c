-- ===== src/Lexer/Bracket/Advance.antt =====
-- The cursor moves forward over a long bracket, and the line does not fall.
use lua2wasm.Prelude.{
  ℕ, suc, ◌+◌, ◌-◌, ◌≤◌, Bytes, length, drop, take, ◌==◌, if◌then◌else◌, [], ◌∷◌, ◌≡◌, arith,
  Option, none, some,
}
use lua2wasm.Lexer.Bracket.{
  Opened, try_open_long_bracket, count_eq, find_close, Close, closed, unclosed, Body, read, missing,
  read_long_body,
}
use lua2wasm.Lexer.Cursor.{
  Tail, Moved, Tail-refl, Tail-cons, Tail-trans, drop-Tail, next-Tail, Moved-trans,
}

abbrev CloseAhead : Bytes → ℕ → Close → Type 0
CloseAhead p line (closed p' l) = Tail p' p × (line ≤ l)
CloseAhead p line (unclosed p' l) = Unit

CloseAhead-trans :
    {p' p : Bytes} {l' l : ℕ} (r : Close)
    → Tail p' p
    → l ≤ l'
    → CloseAhead p' l' r
    → CloseAhead p l r
CloseAhead-trans (closed q k) t h (u, m) = (Tail-trans u t, omega arith)
CloseAhead-trans (unclosed q k) t h u = tt

find_close-CloseAhead :
    (level : ℕ) (p : Bytes) (line : ℕ) → CloseAhead p line (find_close level p line)
unfolding find_close
find_close-CloseAhead level [] line = tt
find_close-CloseAhead level (c ∷ cs) line =
    let l = if c == 10 then line + 1 else line in
    ground (
      arith,
      Tail-refl (c ∷ cs),
      CloseAhead-trans {l = line} (find_close level cs l) (next-Tail (c ∷ cs)) (ground arith)
          (find_close-CloseAhead level cs l),
    )

abbrev pub BodyAhead : Bytes → ℕ → Body → Type 0
BodyAhead p line (read bs p' l) = Tail p' p × (line ≤ l)
BodyAhead p line (missing p' l) = Unit

pub read_long_body-BodyAhead :
    (level : ℕ) (p : Bytes) (line : ℕ) → BodyAhead p line (read_long_body level p line)
unfolding read_long_body
read_long_body-BodyAhead level p line =
    go (find_close level p line) (find_close-CloseAhead level p line)
  where
    go :
        (r : Close)
        → CloseAhead p line r
        → BodyAhead p line (elim r [
          | closed p' l ↦ read (take (length p - length p') p) (drop (2 + level) p') l
          | unclosed p' l ↦ missing p' l
        ])
    go (closed p' l) (t, h) = (Tail-trans (drop-Tail (2 + level) p') t, h)
    go (unclosed p' l) u = tt

abbrev pub OpenedAhead : Bytes → ℕ → Option Opened → Type 0
OpenedAhead p line none = Unit
OpenedAhead p line (some o) = Moved o.body p × (line ≤ o.line)

drop-suc-Moved : (n : ℕ) (c : ℕ) (cs : Bytes) → Moved (drop (suc n) (c ∷ cs)) (c ∷ cs)
drop-suc-Moved n c cs = Tail-cons c (drop-Tail n cs)

pub opened-OpenedAhead : (p : Bytes) (line : ℕ) → OpenedAhead p line (try_open_long_bracket p line)
unfolding try_open_long_bracket
opened-OpenedAhead [] line = tt
opened-OpenedAhead (c ∷ cs) line =
    let level = count_eq cs in
    let two : 2 + level ≡ suc (1 + level) = omega arith in
    let behind = drop-suc-Moved (1 + level) c cs in
    rw two (ground (arith, behind, Moved-trans (next-Tail (drop (1 + level) cs)) behind))
