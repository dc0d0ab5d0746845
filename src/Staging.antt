-- ===== src/Staging.antt =====
-- The staging page of a flow (src/web/js/azkaban.staging.flow.view.js): what its parts share. The menu of a
-- job is in Flow.Menu.
pub mod Views
pub mod Executions
pub mod Drawing
pub mod Filter
pub mod Rows
