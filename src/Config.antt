-- ===== src/Config.antt =====
-- core/config: the validation rules and the persistent store of the runtime configuration.
pub mod Validation
pub mod Store
pub mod Apply
mod Tests
