-- ===== src/Segment/Valid.antt =====
-- What holds of the segment table between two operations of the segment API: it fits into its
-- array, each slot knows its number, the used ones have distinct names, and the saved slot is free.
pub mod Updates
pub mod Lookup
pub mod Get
pub mod Free
