-- ===== src/Lexer/Bracket.antt =====
-- src/lexer.c, try_open_long_bracket and read_long_body: `[==[ ... ]==]`.
-- A level is a number of equals signs; the source's `int` holds every level that fits in memory.
pub mod Advance
use lua2wasm.Prelude.{
  ℕ, suc, ◌+◌, ◌-◌, Bytes, length, drop, take, Bool, true, false, not, ◌&&◌, ◌==◌, if◌then◌else◌,
  [], ◌∷◌, Option, none, some,
}
use lua2wasm.Freestanding.Mem.{peek, next}

-- while (p[n] == '=') n++
unfoldable pub count_eq : Bytes → ℕ
count_eq [] = 0
count_eq (c ∷ cs) = let more = count_eq cs in if c == b'=' then suc more else 0

pub record Opened : Type 0 where
  pub level : ℕ
  pub body : Bytes
  pub line : ℕ

unfoldable pub try_open_long_bracket : Bytes → ℕ → Option Opened
try_open_long_bracket p line =
    let level = count_eq (next p) in
    let p' = drop (2 + level) p in
    if not (peek p == b'[')
    then none
    else if not (peek (drop (1 + level) p) == b'[')
    then none
    else if peek p' == 10
    then some (record { level = level; body = next p'; line = line + 1 })
    else some (record { level = level; body = p'; line = line })

-- Whether `p` begins with the closing bracket of this level.
unfoldable pub at_close : ℕ → Bytes → Bool
at_close level p =
    let n = count_eq (next p) in peek p == b']' && n == level && peek (drop (1 + n) p) == b']'

-- Where the body ends: at its closing bracket, or with the text.
pub data Close : Type 0 where
  closed : Bytes → ℕ → Close
  unclosed : Bytes → ℕ → Close

unfoldable pub find_close : ℕ → Bytes → ℕ → Close
find_close level [] line = unclosed [] line
find_close level (c ∷ cs) line =
    let more = find_close level cs (if c == 10 then line + 1 else line) in
    if c == 0
    then unclosed (c ∷ cs) line
    else if at_close level (c ∷ cs)
    then closed (c ∷ cs) line
    else more

pub data Body : Type 0 where
  read : Bytes → Bytes → ℕ → Body
  missing : Bytes → ℕ → Body

-- The bytes of the body, the text behind its closing bracket, and the line there.
unfoldable pub read_long_body : ℕ → Bytes → ℕ → Body
read_long_body level start line = elim (find_close level start line) [
  | closed p l ↦ read (take (length start - length p) start) (drop (2 + level) p) l
  | unclosed p l ↦ missing p l
]
