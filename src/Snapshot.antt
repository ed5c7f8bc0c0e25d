-- ===== src/Snapshot.antt =====
-- pkg/snapshot: holes of sparse images, and the merge of a delta over its base.
pub mod Holes
pub mod Merge
mod Tests
