-- ===== src/Pipeline.antt =====
-- src/pipeline.h and src/pipeline.cpp.
pub mod Types
pub mod Schema
pub mod Thumbnail
pub mod Digest
pub mod Fingerprint
pub mod Mtime
mod Tests
