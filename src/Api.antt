-- ===== src/Api.antt =====
-- internal/api: the gRPC services and the HTTP callback.
pub mod Status
pub mod Server
pub mod Admin
pub mod Callback
pub mod Http
