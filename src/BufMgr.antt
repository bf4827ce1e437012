-- ===== src/BufMgr.antt =====
-- src/buffer.h, src/buffer.cpp: the buffer manager.
pub mod State
pub mod Clock
pub mod Calls
pub mod Flush
pub mod Inv
pub mod Sweep
pub mod Rounds
pub mod Alloc
pub mod Evict
pub mod Load
pub mod Read
pub mod Unpin
pub mod Dispose
pub mod AllocPage
pub mod Flushing
pub mod FlushFile
pub mod FlushLaws
pub mod Coherence
pub mod Caching
pub mod Transparent
pub mod Durable
pub mod Writing
pub mod History
