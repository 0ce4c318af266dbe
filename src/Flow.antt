-- ===== src/Flow.antt =====
-- aderyn_core/src/context/flow: the control flow graph of a function or modifier body.
pub mod Ast
pub mod Node
pub mod Cfg
pub mod Voids
pub mod Primitives
pub mod Reducibles
pub mod Reduce
pub mod Jumps
pub mod Build
pub mod Reflect
mod Tests
