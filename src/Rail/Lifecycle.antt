-- ===== src/Rail/Lifecycle.antt =====
-- The life of one transfer under the methods of `Transfer` (internal/rail/model.go), called in any
-- order and by any caller.
mod Invariant
mod History
mod Claims
pub use Invariant.*
pub use History.*
pub use Claims.*
