-- ===== src/Args.antt =====
-- The argument parsers of commands.c.
pub mod Sizes
pub mod Policy
pub mod Masks
pub mod Laws
mod Tests
