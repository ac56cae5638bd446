-- ===== src/Pipeline.antt =====
-- rapp/pipeline.py: the closed loop from one telemetry event to one A1 policy.
pub mod Planner
pub mod Conforms
pub mod Decide
pub mod Records
pub mod Poll
pub mod State
pub mod Polls
pub mod Scores
pub mod Process
pub mod Files
pub mod Gate
pub mod Branches
pub mod Accepted
pub mod Audited
pub mod Nominal
