-- ===== src/Service.antt =====
-- internal/platform/service: the queue of runs, its worker and commands, and the ranking.
pub mod Records
pub mod Store
pub mod Soundness
pub mod Preservation
pub mod Claims
pub mod Evolution
pub mod Submissions
pub mod Lifecycle
pub mod Promotion
pub mod Recovery
pub mod Worker
pub mod Quiet
pub mod Working
pub mod Commands
pub mod FollowUps
pub mod Ranking
pub mod RankingOrder
pub mod RankingCounts
pub mod RankingOnce
pub mod RankingUpdates
pub mod Examples
pub mod RankingExamples
