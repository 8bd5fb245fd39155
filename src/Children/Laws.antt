-- ===== src/Children/Laws.antt =====
-- What the operations on child processes promise for the list of children.
pub mod Names
pub mod Freeing
pub mod Reaping
pub mod Spawning
pub mod Reach
