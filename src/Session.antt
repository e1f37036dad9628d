-- ===== src/Session.antt =====
-- A session: any sequence of the library's calls on one connection, over libncftp/c_*.c.
pub mod Ready
pub mod Plain
pub mod Values
pub mod Read
pub mod Destination
pub mod Walks
pub mod Move
pub mod Back
pub mod Make
pub mod Names
pub mod Batch
pub mod Calls
pub mod Begin
