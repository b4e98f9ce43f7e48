-- ===== src/Filters.antt =====
-- hdf5/src/format/filters.rs: the filters of the chunk pipeline, a child module for each.
pub mod Shuffle
pub mod Fletcher
pub mod Lzf
pub mod BitStream
pub mod NBit
pub mod ScaleOffset
pub mod Pipeline
mod Runs
