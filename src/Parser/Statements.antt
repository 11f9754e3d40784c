-- ===== src/Parser/Statements.antt =====
-- The statements and blocks of the parser end, read no token beyond the list, and move forward.
pub mod Declarations
pub mod Flow
pub mod Assignments
pub mod Blocks
