-- ===== src/Settings.antt =====
-- backend/config/posSettings.ts: the operational settings and how an input becomes one.
pub mod Slug
pub mod Inherited
pub mod Types
pub mod Normalize
pub mod Stations
pub mod Whole
pub mod Dicts
pub mod Laws
