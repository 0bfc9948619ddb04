-- ===== src/Switch/Submit/Laws.antt =====
-- `SubmitToSPI` and `SubmitPendingSPI` of internal/switcher/service.go keep the store, and what their
-- replies tell.
mod Safe
mod Approved
mod Exchange
mod Batch
mod Kept
pub use Safe.*
pub use Approved.*
pub use Exchange.*
pub use Batch.*
pub use Kept.*
