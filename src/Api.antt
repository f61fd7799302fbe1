-- ===== src/Api.antt =====
-- The texts of src/api.cpp: JSON answers, query parameters and the fields of a JSON body. The sockets
-- and the routes are not modelled.
pub mod Json
pub mod Query
pub mod Request
pub mod World
pub mod Respond
pub mod Listener
pub mod Routes
mod Tests
