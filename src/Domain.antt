-- ===== src/Domain.antt =====
-- specstyle/domain: the value objects that every other component shares.
pub mod Text
pub mod Enums
pub mod Float
pub mod Integers
pub mod Identifiers
pub mod Artifacts
