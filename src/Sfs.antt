-- ===== src/Sfs.antt =====
-- src/sfs.c: the handlers that FUSE calls.
pub mod State
pub mod Lookup
pub mod Calls
pub mod Files
pub mod Folders
pub mod Transfer
pub mod Mutex
pub mod Ends
pub mod Search
pub mod Names
pub mod Links
pub mod AtRoot
pub mod Attributes
pub mod Removes
pub mod LastLink
pub mod Opens
pub mod NewFile
pub mod Made
pub mod Creates
pub mod Mount
pub mod Main
