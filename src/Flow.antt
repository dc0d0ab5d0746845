-- ===== src/Flow.antt =====
-- The graph of a flow's jobs as the web client keeps it, and what the client does to it:
-- fetching (`Fetch`), linking (`Link`), enabling and disabling jobs (`Disable`), and the menus
-- that do so (`Menu`).
pub mod Graph
pub mod Fetch
pub mod Link
pub mod Disable
pub mod Menu
pub mod Scheduled
pub mod ScheduledLinks
