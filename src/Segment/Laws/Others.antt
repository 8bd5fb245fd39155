-- ===== src/Segment/Laws/Others.antt =====
-- What the segment API leaves alone outside its table.
pub mod Tables
pub mod Loops
pub mod Steps
