-- ===== src/Freestanding/Ctype.antt =====
-- src/freestanding/include/ctype.h: the character classes, on bytes; and hex_val of src/lexer.c.
use lua2wasm.Prelude.{ℕ, Bool, ◌&&◌, ◌||◌, ◌==◌, leb}

unfoldable pub isdigit : ℕ → Bool
isdigit c = leb b'0' c && leb c b'9'

unfoldable pub isxdigit : ℕ → Bool
isxdigit c = leb b'0' c && leb c b'9' || leb b'a' c && leb c b'f' || leb b'A' c && leb c b'F'

unfoldable pub isspace : ℕ → Bool
isspace c = c == 32 || c == 9 || c == 10 || c == 11 || c == 12 || c == 13

unfoldable pub isalpha : ℕ → Bool
isalpha c = leb b'a' c && leb c b'z' || leb b'A' c && leb c b'Z'

unfoldable pub isalnum : ℕ → Bool
unfolding isalpha isdigit
isalnum c = isalpha c || isdigit c
