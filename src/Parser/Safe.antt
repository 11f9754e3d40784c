-- ===== src/Parser/Safe.antt =====
-- Actions that end, read no token beyond the list, and move the cursor forward only: one rule for
-- each way to build an action. `toks` ends with its end marker.
mod Core
mod Tokens
pub use Core.*
pub use Tokens.*
