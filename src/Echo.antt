-- ===== src/Echo.antt =====
-- internal/games/echo/echo.go: the echo game.
pub mod Data
pub mod Steps
pub mod Snapshots
pub mod Replays
pub mod History
pub mod Restoring
pub mod Expected
pub mod Places
pub mod Normal
pub mod Examples
