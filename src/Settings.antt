-- ===== src/Settings.antt =====
-- internal/controller/settings/conversion.go and settings.go: the configuration of a CTFd instance.
pub mod Config
pub mod Handlers
