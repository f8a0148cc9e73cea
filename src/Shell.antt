-- ===== src/Shell.antt =====
-- The command shell (shell): macros, the lists of arguments and the expansion of lines.
pub mod Macro
pub mod Lists
pub mod Expand
pub mod Session
pub mod Script
mod Tests
