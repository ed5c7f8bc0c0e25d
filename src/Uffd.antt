-- ===== src/Uffd.antt =====
-- pkg/uffd: the per-page state table and the address map behind the userfaultfd handler.
pub mod State
pub mod AddressMap
pub mod Install
pub mod Release
pub mod Capture
pub mod Fault
pub mod Tail
mod Tests
mod InstallTests
