-- ===== src/Navigate.antt =====
-- Panning and zooming a graph (src/web/js/svgNavigate.js).
pub mod Drag
pub mod Zoom
pub mod Bounds
