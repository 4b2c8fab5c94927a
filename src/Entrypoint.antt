-- ===== src/Entrypoint.antt =====
-- internal/entrypoint: the server where rooms and people find each other.
pub mod Names
pub mod State
pub mod Store
pub mod Operator
pub mod Identity
pub mod Api
pub mod Onboarding
pub mod Lobby
