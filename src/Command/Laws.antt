-- ===== src/Command/Laws.antt =====
-- What the command search and the command functions promise.
pub mod Finding
pub mod Fuel
pub mod Calls
pub mod Codes
pub mod Exits
pub mod Ends
pub mod Ranges
pub mod Creating
pub mod Tables
pub mod Waiting
pub mod Voice
pub mod Touching
pub mod Arming
pub mod Sending
pub mod Ran
pub mod Dispatch
pub mod Running
pub mod Answering
pub mod Lines
pub mod Reading
pub mod NodeLists
pub mod Migrating
