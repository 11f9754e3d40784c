-- ===== src/Runs.antt =====
-- Concrete runs of the definitions, and the theorems at concrete inputs.
mod Lexing
mod Assembling
mod Runtime
mod Reading
mod Parsing
mod Encoding
mod Elimination
mod Pooling
