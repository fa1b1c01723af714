-- ===== src/Services.antt =====
-- pkg/services: what the commands and the supervisor do.
pub mod Control
pub mod Message
pub mod Channel
pub mod Codex
pub mod Health
pub mod Start
pub mod Supervisor
pub mod CodexService
pub mod Fleet
