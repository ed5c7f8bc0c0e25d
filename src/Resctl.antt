-- ===== src/Resctl.antt =====
-- pkg/resctl: the sandbox-local memory policy (Memory) and the balloon controller (Balloon).
pub mod Memory
pub mod ChMemory
pub mod Balloon
mod Tests
