-- ===== src/Args/Laws.antt =====
-- What the parsers of the arguments promise.
pub mod Nodes
pub mod Lists
pub mod Scaled
pub mod Fuel
pub mod Flags
