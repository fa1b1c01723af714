-- ===== src/Services/CodexService.antt =====
-- pkg/services/codex_service.go: the managed Codex app-server.
pub mod Endpoint
pub mod Files
pub mod Occasion
pub mod Ensure
