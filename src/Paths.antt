-- ===== src/Paths.antt =====
-- Path names and URLs: PathBuild of libncftp/u_misc.c, URLCopyToken of u_decodeurl.c, and
-- PathContainsIntermediateDotDotSubDir of rglob.c.
pub mod Build
pub mod Url
pub mod DotDot
