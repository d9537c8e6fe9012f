-- ===== src/Domain.antt =====
-- internal/core/domain: the query record, its state machine, its options and the errors that
-- the operations return.
mod State
mod Errors
mod Record
pub mod Transitions
pub mod Options
unfoldable pub use State.*
unfoldable pub use Errors.*
unfoldable pub use Record.*
