-- ===== src/Plugin.antt =====
-- The plugin's runtime (internal/plugin/runtime.go), and the entry points of the host around it
-- (main.go, internal/host/client.go).
pub mod Runtime
pub mod Sanitize
pub mod System
pub mod Owned
pub mod Settled
pub mod Overlap
pub mod Handle
pub mod Entry
