-- ===== src/Parser.antt =====
-- src/parser.c: the parser.
pub mod Operators
pub mod Kinds
pub mod Ast
pub mod Scope
pub mod State
pub mod Resolve
pub mod Calls
pub mod Body
pub mod Primary
pub mod Expr
pub mod Markers
pub mod Safe
pub mod Local
pub mod Control
pub mod Loops
pub mod Assign
pub mod Jumps
pub mod Global
pub mod Block
pub mod Steps
pub mod Rules
pub mod Statements
pub mod Whole
pub mod Fits
