-- ===== src/Sio.antt =====
-- The socket library under libncftp: sio/SReadline.c.
pub mod Readline
