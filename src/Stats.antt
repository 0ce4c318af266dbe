-- ===== src/Stats.antt =====
-- aderyn_core/src/stats: lines of code, and the lines that a comment tells the detectors to ignore.
pub mod Text
pub mod CodeIterator
pub mod Token
pub mod Insight
pub mod Cloc
pub mod Ignore
pub mod Collect
mod Tests
