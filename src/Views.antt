-- ===== src/Views.antt =====
-- extension/popup: the parts of the popup that do not draw.
pub mod Strength
pub mod Favicons
