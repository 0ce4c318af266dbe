-- ===== src/Router.antt =====
-- The call router of aderyn_core/src/context/router.rs and router/.
pub mod Suspects
pub mod Build
pub mod Resolve
pub mod Ask
pub mod Tests
