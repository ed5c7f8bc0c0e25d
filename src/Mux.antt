-- ===== src/Mux.antt =====
-- pkg/mux
pub mod Wire
pub mod Frame
pub mod Stream
pub mod Flow
pub mod Session
mod Tests
mod SessionTests
