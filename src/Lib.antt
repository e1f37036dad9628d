-- ===== src/Lib.antt =====
-- A model of the core of LibNcFTP, a library for FTP clients, and of its string library Strn, with
-- proofs of what they do. Paths are those of the repository's root.
--
-- The program. An application holds a connection block (`FTPConnectionInfo`, libncftp/ncftp.h). Each
-- of its calls, `FTPChdir` or `FTPRename` say, sends command lines over the control connection and
-- reads the replies (libncftp/rcmd.c), and keeps in the block what it learns: the last result, the
-- transfer type, the current directory, which features the server has. Texts go into arrays of fixed
-- size by the copies of Strn.
--
-- The parts, and the files that model them:
--   - Base: shared names, Boolean tests, lists over the native numbers, C integers and C strings.
--   - Strn: Strn/Strncpy.c, Strncpy_NoZeroPad.c, Strnpcpy.c, Strncat.c, Strncat_NoZeroPad.c,
--     Strnpcat.c. An array is the list of its bytes; a write behind its end is a fault, `none`.
--     Strn/Token: Strtok and Strntok of Strn/Strntok.c, strtokc and strntokc of Strn/strtokc.c; the
--     static `p` and the caller's `*context` are arguments and results.
--   - Sio/Readline: sio/SReadline.c, on the results of SRead. Its lines are what Conn takes as input.
--   - Conn: the connection block with the server and the operating system as fields (what the server
--     sends after each line, whether a write fails, whether a request for memory is met), the state
--     monad of the commands, FTPShutdownHost, FTPDeallocateHost, FTPCloseControlConnection.
--     Conn/Errors: libncftp/ncftp_errno.h.
--   - Reply: GetResponse and the life of a response (InitResponse, SaveLastResponse, DoneWithResponse,
--     ReInitResponse) of libncftp/rcmd.c, AddLine of libncftp/linelist.c. A line list is the list of its
--     lines.
--   - LineList: libncftp/linelist.c with its pointers: AddLine, RemoveLine and DisposeLineListContents on
--     a heap of nodes. The other parts take the list of the lines, which the theorems on it justify.
--   - Command: FTPSendCommandStr, FTPSendCommand, FTPCmd, FTPCmdNoResponse and RCmd of rcmd.c.
--   - Commands/Names: libncftp/c_rename.c, c_umask.c, c_symlink.c. Commands/TransferType: c_type.c.
--     Commands/Directory: c_chdir.c and c_getcwd.c. Commands/Facts: FTPFileSize of c_size.c and
--     FTPFileModificationTime of c_modtime.c. Commands/AsciiSize: FTPLocalASCIIFileSize of c_size.c.
--     Commands/Utime: c_utime.c. Commands/Ask: the steps around a reply that those have in common.
--   - Commands/Mkdir: libncftp/c_mkdir.c, and StrRemoveTrailingSlashes of u_slash.c; its way back is in
--     Commands/Buf. Commands/Chdir3: c_chdir3.c and c_chdirlist.c. Commands/Glob: rglob.c; the listing of
--     a pattern, FTPListToMemory2, is a parameter. Commands/Batch: c_chmod.c, c_delete.c and c_rmdir.c;
--     FTPRmdirRecursive is a parameter there.
--   - Commands/Probe: c_mlist1.c. Its modules: Stat and Nlst, FTPFileExistsStat and FTPFileExistsNlst of
--     c_exists.c; Kind, FTPFileExists2 and c_filetype.c; Facts, c_sizemdtm.c, FTPRemoteHelp of c_rhelp.c
--     and CopyLineList of linelist.c; Rmdirr, c_rmdirr.c. UnMlsT, UnMDTMDate and sscanf are parameters.
--   - Login: FTPLoginHost and FTPCloseHost of libncftp/open.c. The passphrase callback is a parameter.
--   - Opening: Welcome, OpenControlConnection of libncftp/ftp.c, where the resolver and the sockets are
--     one `Attempt` for each dial; Dial, FTPOpenHost, FTPAllocateHost and FTPResetStatusVariables of
--     open.c, and FTPOpenHostNoLogin of c_opennologin.c; Features, FTPQueryFeatures of open.c, with
--     what is assumed of a server by its type in Features/Assume, and FTPExamineMlstFeatures in
--     Features/Mlst; Init,
--     FTPInitConnectionInfo2 of open.c.
--   - Port: FTPSendPort, FTPSendPassive and FTPSetStartOffset of libncftp/ftp.c.
--   - Session: the calls of an application one after the other, and what holds of the connection block
--     between them; Begin, the same from FTPInitConnectionInfo2 and from FTPOpenHost on.
--   - Paths/Build: PathBuild of libncftp/u_misc.c. Paths/Url: URLCopyToken of u_decodeurl.c.
--     Paths/DotDot: PathContainsIntermediateDotDotSubDir of libncftp/rglob.c.
--   - Tests: concrete connections and buffers.
-- Functions keep the C names in lower case, without the prefix FTP. Strn is used by Reply (the last
-- result), Directory and Paths; Command uses Reply; every command uses Command. The commands
-- on directories and on batches call each other as they do in C; Session puts all of them together.
--
-- Loops. Those of Strn, Reply and Paths, and the loops over lists of names, are structural: on the
-- rounds left, on the source text, on the lines. The other loops count their rounds down.
--   - FTPMkdir2: the search for a parent and the making of directories take a round for each delimiter
--     at most; the bound is the path's length and one. FTPChdir3: the same, with the length of
--     `cip->buf`, which holds the path.
--   - FTPLoginHost has a fuel; each round reads a line of the server's, so that the number of lines that
--     it sends and one is enough. Without fuel the result is `none`, which is no result of C's.
--   - FTPOpenHost and FTPOpenHostNoLogin dial without end if `maxDials` is negative, so that their loop
--     has a fuel; else one round more than `maxDials` is enough.
--   - FTPRmdirRecursiveL2 has a fuel for its depth, which has no bound in C; spent fuel is a fault.
--   - In the theorems on tokenizers a count of calls greater than the text's length is enough, since
--     each call consumes a byte.
--
-- Not modelled. Logs, traces and the application's callbacks other than the passphrase are output only.
-- The data connection, transfers and the parsing of listings are sequences of socket and file calls; of
-- the first, the two calls that the commands use are parameters. The socket calls of
-- OpenControlConnection, SRead and how much SWrite takes of a line are parameters too, and so is
-- FTPManualOverrideFeatures, whose options may give a feature any number. The other routines of
-- libncftp/u_*.c, the walks over trees and the sample programs are not modelled. `sscanf` (but in Port,
-- which writes out the one format it needs), Gmtime with its formatting, UnMlsT, UnMDTMDate and the
-- clock are arguments. What is on the stack before GetResponse stores a line there is a field of the
-- connection block; a line of fewer than four bytes makes GetResponse read it, and where it has no NUL
-- there the model's result is `none`, as for every read behind an array.
-- Text that is longer than 511 bytes in a line is cut as in C; a port is given by its digits.
pub mod Base
pub mod Strn
pub mod Sio
pub mod Conn
pub mod LineList
pub mod Reply
pub mod Command
pub mod Commands
pub mod Login
pub mod Session
pub mod Opening
pub mod Port
pub mod Paths
pub mod Tests
