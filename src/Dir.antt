-- ===== src/Dir.antt =====
-- src/dir.h and src/dir.c: directories as files of entries.
pub mod Entry
pub mod Iterate
pub mod Link
pub mod NeverFails
pub mod Ends
pub mod FirstFrom
pub mod Contents
pub mod Walk
pub mod Names
pub mod Replace
pub mod Linked
pub mod LinkSlot
pub mod Dropped
pub mod Unlinked
pub mod LastLink
pub mod Taken
