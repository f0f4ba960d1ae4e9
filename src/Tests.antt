-- ===== src/Tests.antt =====
-- Runs of the model on a disk in memory, and the theorems at concrete inputs.
mod Ram
mod Fs
mod Pool
mod Sfs
mod Format
mod Transfer
mod Ends
mod Folder
mod Handlers
mod LastLink
mod Created
mod Mount
mod Main
