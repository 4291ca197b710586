-- ===== src/Authz.antt =====
-- Platform authorisation: backend/app/authz.
pub mod Models
pub mod Store
pub mod Service
pub mod Routes
pub mod Resolver
pub mod Gate
mod Examples
