-- ===== src/Platform.antt =====
-- lib/platform: the governed platform configuration, its validation and its file.
pub mod Report
pub mod Config
pub mod Parse
pub mod Validation
pub mod Default
pub mod Store
pub mod Admin
