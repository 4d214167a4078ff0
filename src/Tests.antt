-- ===== src/Tests.antt =====
-- Runs of the model on concrete inputs, and the theorems at such inputs.
pub mod Data
pub mod SyncRuns
pub mod RuleRuns
pub mod DaemonRuns
pub mod CgroupRuns
pub mod PollRuns
pub mod TurnRuns
pub mod IpcRuns
pub mod SetupRuns
pub mod GuiRuns
pub mod SweepRuns
