-- ===== src/Codegen.antt =====
-- src/codegen: the code generator.
pub mod Strings
pub mod Constants
