-- ===== src/Execution.antt =====
-- The page of a running execution (src/web/js/azkaban.exflow.view.js), with the statuses of
-- src/web/js/azkaban.job.status.utils.js.
pub mod Status
pub mod Poll
pub mod Update
pub mod Log
pub mod Rows
pub mod Panel
pub mod Start
