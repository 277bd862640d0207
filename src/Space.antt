-- ===== src/Space.antt =====
-- internal/space: the creation of knowledge spaces.
pub mod Inputs
pub mod Requests
pub mod Service
pub mod Creation
