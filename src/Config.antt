-- ===== src/Config.antt =====
-- The values of configurations: internal/utils/common.go.
pub mod Value
pub mod ItemSet
pub mod Built
pub mod Items
