-- ===== src/Usage.antt =====
-- pkg/usage: host-owned resource accounting, as far as it is arithmetic.
pub mod Number
pub mod Accumulate
pub mod Counting
mod Tests
