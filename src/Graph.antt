-- ===== src/Graph.antt =====
-- The call graphs of aderyn_core/src/context/graph.rs and graph/.
pub mod Raw
pub mod Reverse
pub mod Search
pub mod Legacy
pub mod New
pub mod Consumer
pub mod Visit
pub mod Surface
pub mod Tests
