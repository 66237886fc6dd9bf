-- ===== src/Fs.antt =====
-- agent/commands/fs.py: `list_dir`, its cursor, and the range of `read_bytes`. Texts are lists of
-- code points. The file system is no code of the repository: what the calls to it answer is a
-- parameter.
pub mod Cursor
pub mod Walk
pub mod Upward
pub mod Lexical
pub mod Plain
pub mod Paths
pub mod Confined
pub mod Handed
pub mod Pages
pub mod Ranges
pub mod Disk
pub mod Writes
pub mod Lawful
pub mod Transfer
pub mod Pieces
pub mod Download
pub mod Listing
