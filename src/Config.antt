-- ===== src/Config.antt =====
-- The configuration package (config/): the project file, its defaults and its lookups.
pub mod Types
pub mod Yaml
pub mod Project
pub mod Defaults
pub mod Routes
