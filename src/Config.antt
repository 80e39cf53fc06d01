-- ===== src/Config.antt =====
-- internal/config/config.go: loading, saving, checking and merging a configuration.
pub mod Settings
pub mod Loader
pub mod Filling
pub mod Saving
mod Examples
