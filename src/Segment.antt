-- ===== src/Segment.antt =====
-- The segment table and the segment API of segment.c.
pub mod Slots
pub mod Round
pub mod Map
pub mod Maps
pub mod Register
pub mod Touch
pub mod Ranges
pub mod Show
pub mod Valid
pub mod Laws
mod Tests
