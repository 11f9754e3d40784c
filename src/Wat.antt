-- ===== src/Wat.antt =====
-- src/wat2wasm.c: the assembler.
pub mod Buf
pub mod Leb
pub mod Trivia
pub mod Text
pub mod Reader
pub mod Integer
pub mod Encode
pub mod Dce
