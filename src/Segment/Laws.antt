-- ===== src/Segment/Laws.antt =====
-- What the operations of the segment API promise, over the abstract view of the table.
pub mod Removal
pub mod Keeping
pub mod Slot
pub mod Choice
pub mod Registration
pub mod Rounding
pub mod Writes
pub mod Mapping
pub mod Access
pub mod Asking
pub mod Cleaning
pub mod Reach
pub mod Meaning
pub mod Refining
pub mod Lasting
pub mod Arming
pub mod Tables
pub mod Touching
pub mod Protection
pub mod Listing
pub mod Others
pub mod Loading
