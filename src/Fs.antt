-- ===== src/Fs.antt =====
-- The file systems: the paths.
pub mod Path
