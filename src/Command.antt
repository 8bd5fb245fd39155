-- ===== src/Command.antt =====
-- The command interpreter of commands.c.
pub mod Table
pub mod Common
pub mod Creating
pub mod Segments
pub mod Waiting
pub mod Nodes
pub mod Policies
pub mod Loop
pub mod Input
pub mod Laws
mod Tests
