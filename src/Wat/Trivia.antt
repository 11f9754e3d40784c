-- ===== src/Wat/Trivia.antt =====
-- src/wat2wasm.c, the reader of WebAssembly text: white space and comments. The cursor is the
-- rest of the source; `c->pos + 1 < c->len` needs no test of its own, since a read past the end
-- gives NUL, which begins no comment.
pub mod Skips
use lua2wasm.Prelude.{
  ℕ, zero, suc, ◌+◌, Bytes, length, drop, Bool, true, false, not, ◌&&◌, ◌||◌, ◌==◌, if◌then◌else◌,
  [], ◌∷◌, Option, none, some,
}
use lua2wasm.Freestanding.Mem.{peek, peek1}
use lua2wasm.Lexer.Number.{skip_while}

-- The line of the offset `pos`, counted from 1.
unfoldable pub line_of : Bytes → ℕ → ℕ
line_of src zero = 1
line_of [] (suc pos) = 1
line_of (c ∷ cs) (suc pos) = let rest = line_of cs pos in if c == 10 then rest + 1 else rest

unfoldable pub is_space : ℕ → Bool
is_space c = c == 32 || c == 9 || c == 10 || c == 13

unfoldable pub is_atom_char : ℕ → Bool
unfolding is_space
is_atom_char c =
    not (c == 0)
    && not (is_space c)
    && not (c == 40)
    && not (c == 41)
    && not (c == 34)
    && not (c == 59)

-- The inside of a block comment, at a depth.
unfoldable pub skip_block : ℕ → Bytes → Bytes
skip_block zero p = p
skip_block (suc d) [] = []
skip_block (suc d) (c ∷ []) = []
skip_block (suc d) (c ∷ e ∷ rest) =
    let inner = skip_block (suc (suc d)) rest in
    let outer = skip_block d rest in
    let step = skip_block (suc d) (e ∷ rest) in
    if c == 40 && e == 59 then inner else if c == 59 && e == 41 then outer else step

-- One round of the loop for each comment.
unfoldable pub trivia_loop : ℕ → Bytes → Option Bytes
trivia_loop zero p = none
trivia_loop (suc fuel) p =
    let q = skip_while is_space p in
    let line = trivia_loop fuel (skip_while (λ c. not (c == 10)) (drop 2 q)) in
    let block = trivia_loop fuel (skip_block 1 (drop 2 q)) in
    if peek q == 59 && peek1 q == 59
    then line
    else if peek q == 40 && peek1 q == 59
    then block
    else some q

-- A comment takes two bytes at least, which bounds the fuel.
unfoldable pub skip_trivia : Bytes → Option Bytes
skip_trivia p = trivia_loop (length p + 1) p
