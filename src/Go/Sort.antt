-- ===== src/Go/Sort.antt =====
-- The contract of Go's package sort, a sort that meets it, and why a list has one sorted order.
mod Contract
mod Insertion
mod Unique
pub use Contract.*
unfoldable pub use Insertion.*
pub use Unique.*
