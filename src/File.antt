-- ===== src/File.antt =====
-- src/file.h, src/file.cpp, src/file_iterator.h: the pages of a file.
pub mod State
pub mod Registry
pub mod Handles
pub mod Sharing
pub mod Alloc
pub mod Free
pub mod Chains
pub mod Store
pub mod Walk
pub mod Crossed
pub mod Places
pub mod Linking
pub mod AllocLaws
pub mod Heading
pub mod Reusing
pub mod Allocation
pub mod Previous
pub mod FreeLaws
pub mod Deleting
pub mod Access
pub mod Stores
pub mod StoreLaws
pub mod Orders
