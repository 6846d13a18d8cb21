-- ===== src/Janken.antt =====
-- internal/games/janken/janken.go: the game master of rock, paper, scissors.
pub mod Rules
pub mod Data
pub mod Views
pub mod Master
pub mod Outcomes
pub mod Tallying
pub mod Rounds
pub mod RoundResult
pub mod Matches
pub mod Placing
pub mod Places
pub mod Normal
pub mod Examples
