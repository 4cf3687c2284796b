-- ===== src/Go/Action.antt =====
-- Calls that read and change the outside world and may fail. The world outlives a failure: what a
-- call did before it failed stays done.
mod Defs
pub mod Bind
pub mod Keeps
pub mod Appends
pub mod Succeeds
pub mod Maintains
pub mod Adds
unfoldable pub use Defs.*
