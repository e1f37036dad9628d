-- ===== src/Commands.antt =====
-- The commands of libncftp/c_*.c, each a function of the connection.
--
-- A `char *` argument that the code tests for NULL is an `Option`; the connection itself is never
-- NULL here. A command line is given as its format makes it.
pub mod Names
pub mod TransferType
pub mod Directory
pub mod Ask
pub mod Facts
pub mod Utime
pub mod AsciiSize
pub mod Buf
pub mod Mkdir
pub mod Chdir3
pub mod Glob
pub mod Batch
pub mod Probe
