-- ===== src/Tests.antt =====
-- The theorems at concrete states: an index of one inode with a data block, a small flash, and a
-- pool of four nodes.
mod Data
mod Space
mod Index
mod Garbage
mod Store
mod Names
mod Disk
mod Buffers
mod Files
