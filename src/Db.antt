-- ===== src/Db.antt =====
-- src/db.cpp, the store: its statements, the decoding of rows, and its operations on the server.
pub mod Server
pub mod Rows
pub mod Operations
pub mod Listing
pub mod Migrate
pub mod Writes
pub mod Connection
pub mod Sequence
pub mod Lock
mod Tests
