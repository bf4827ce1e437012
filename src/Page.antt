-- ===== src/Page.antt =====
-- src/page.h, src/page.cpp, src/page_iterator.h: a page of records.
pub mod Bytes
pub mod Slots
pub mod State
pub mod Delete
pub mod Iterator
pub mod Totals
pub mod Layout
pub mod Removal
pub mod Addition
pub mod Moving
pub mod Inv
pub mod Splicing
pub mod Release
pub mod Compaction
pub mod DeleteLaws
pub mod Slotting
pub mod Filling
pub mod InsertLaws
pub mod UpdateLaws
pub mod Refusals
pub mod Stale
pub mod History
pub mod Walk
pub mod Deletion
