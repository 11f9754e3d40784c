-- ===== src/Freestanding.antt =====
-- src/freestanding: the C library of the wasm32 build.
pub mod Ctype
pub mod Mem
pub mod Strtoll
pub mod Fmt
pub mod Alloc
pub mod Copy
