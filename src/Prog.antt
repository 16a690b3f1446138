-- ===== src/Prog.antt =====
-- Asynchronous handlers as programs: a tree of atomic actions on a shared state. One action is
-- what runs between two `await`s, one SQL statement or one `$transaction`. Between two actions
-- of a program other programs may act.
mod Defs
pub mod Keeps
pub mod Run
pub mod Throws
pub mod Safe
pub mod Among
pub mod Schedule
unfoldable pub use Defs.*
