-- ===== src/Go.antt =====
-- What the modelled code uses of the Go language and its standard library: error values, calls that
-- change the outside world, and `sort`.
pub mod Errors
pub mod Action
pub mod Sort
