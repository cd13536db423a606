-- ===== src/Locks/Invariant.antt =====
-- What holds of the memory and of the callers between any two steps.
mod Defs
mod Moves
mod Steps
pub use Defs.*
pub use Steps.{Step-IsConsistent, Reach-IsConsistent}
