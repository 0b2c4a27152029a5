-- ===== src/Microservice.antt =====
-- The replicas of a microservice (internal/microservice/).
pub mod Scale
pub mod Fresh
pub mod Container
pub mod Started
pub mod Stopped
pub mod Refused
pub mod Survives
