-- ===== src/Opening.antt =====
-- Opening a connection: FTPOpenHost and FTPQueryFeatures of libncftp/open.c, OpenControlConnection of
-- libncftp/ftp.c, and libncftp/c_opennologin.c.
pub mod Features
pub mod Welcome
pub mod Init
pub mod Dial
