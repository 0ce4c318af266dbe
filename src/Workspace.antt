-- ===== src/Workspace.antt =====
-- `WorkspaceContext` of aderyn_core/src/context/workspace.rs, and what reads it.
pub mod Ast
pub mod TextMap
pub mod Context
pub mod Ancestors
pub mod Location
pub mod Siblings
pub mod Peek
pub mod Tests
