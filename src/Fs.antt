-- ===== src/Fs.antt =====
-- The file system: pipes, file descriptors and the maps of free blocks and inodes.
pub mod Pipe
pub mod Descriptors
pub mod Bitmap
pub mod Buffer
pub mod Names
pub mod Zones
pub mod Regular
pub mod Truncate
pub mod Path
