-- ===== src/Tests.antt =====
-- Runs of the definitions at concrete inputs, and the theorems applied there.
mod Flow
mod Pages
mod Week
mod Run
mod Forms
mod Jobs
mod Menus
mod Table
mod Hover
mod Dates
mod Staging
mod Cells
mod Lists
