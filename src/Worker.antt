-- ===== src/Worker.antt =====
-- src/worker.h and src/worker.cpp.
pub mod State
pub mod Poll
pub mod Cache
pub mod Lifecycle
pub mod Machine
pub mod Process
pub mod Reconvert
pub mod Threads
mod Tests
