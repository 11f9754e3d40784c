-- ===== src/Lexer.antt =====
-- src/lexer.c and src/lexer.h.
pub mod Token
pub mod Keyword
pub mod Utf8
pub mod Text
pub mod Bracket
pub mod Number
pub mod Cursor
pub mod Scan
