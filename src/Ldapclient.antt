-- ===== src/Ldapclient.antt =====
-- internal/ldapclient: the client that resolves a group's members in a directory.
pub mod Library
pub mod Client
pub mod Frame
pub mod Closing
pub mod Secrecy
pub mod Unreported
pub mod Absence
pub mod Names
pub mod Meter
pub mod Throttle
pub mod Searches
pub mod Limiters
pub mod Fake
mod Tests
