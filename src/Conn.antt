-- ===== src/Conn.antt =====
-- The connection block (`FTPConnectionInfo`, libncftp/ncftp.h), the environment it talks to, and the
-- state monad in which the commands are written.
--
-- A command is a function of the block that gives its C result and the block after it, or `none`
-- where the C code reads through a NULL pointer or outside an array. The environment is in the block:
--   - `peer` is the server: what arrives on the control connection after each line that was sent, as
--     a function of all the lines sent so far; `input` is what has arrived and is not yet read;
--   - `writes` says how much SWrite takes of a line, for what was sent so far and that line; `sent`
--     has what each call took, which is less than a line where SWrite gives up in the middle;
--   - `poll` says whether SWaitUntilReadyForReading sees the unread input within its time;
--   - `malloc` says of each request for memory, counted by `allocs`, whether it is met;
--   - `junk` is what the stack holds where GetResponse puts its line buffer of 512 bytes. SReadline
--     stores at most 510 bytes and a NUL in it (Sio/Readline).
-- Logs, traces and the application's callbacks are output only and are left out.
pub mod Errors
use libncftp.Base.{
  ℕ, zero, suc, ◌+◌, Bool, true, false, not, ◌&&◌, List, [], ◌∷◌, ◌++◌, Option, none, some, Bytes,
  codes, strcmp_eq, if◌then◌else◌, ℤ, pos, neg, replicate, length,
}
use libncftp.Conn.Errors.{k_err_bad_magic}

-- One outcome of SReadline on the control socket. A line is what is stored before the NUL, with its
-- newline if one was read; the empty line is the result 0.
pub data Readline : Type 0 where
  line : Bytes → Readline
  eof timeout failed : Readline

-- The result of SWrite: it wrote all, its timeout or an error came after `suc n` bytes, or before any.
pub data Written : Type 0 where
  whole nothing : Written
  cut : ℕ → Written

-- kCommandAvailabilityUnknown, kCommandAvailable, kCommandNotAvailable
pub data Availability : Type 0 where
  unknown available not_available : Availability

-- What the application says of the login. `host`, `user`, `pass` and the like are texts; a port is
-- given as its digits.
pub record Account : Type 0 where
  pub host : Bytes
  pub port : Bytes
  pub user : Bytes
  pub pass : Bytes
  pub acct : Bytes
  pub pass_is_empty : Bool
  pub leave_pass : Bool
  pub firewall_type : ℕ
  pub firewall_user : Bytes
  pub firewall_pass : Bytes
  pub do_not_get_starting_cwd : Bool

-- Which other commands the server has.
pub record Features : Type 0 where
  pub has_pasv : Availability
  pub has_rest : Availability
  pub has_nlst_d : Availability
  pub has_feat : Availability
  pub has_mlsd : Availability
  pub has_clnt : Availability
  pub has_help_site : Availability
  pub has_retr_tar : Availability
  pub has_site_retrbufsize : Availability
  pub has_site_rbufsiz : Availability
  pub has_site_rbufsz : Availability
  pub has_site_storbufsize : Availability
  pub has_site_sbufsiz : Availability
  pub has_site_sbufsz : Availability
  pub has_site_bufsize : Availability

pub record Conn : Type 0 where
  pub magic : Bytes
  pub account : Account
  pub err_no : ℤ
  pub last_result_str : Bytes
  pub last_result_num : ℤ
  pub last_result_ll : List Bytes
  -- The buffer of `currentWorkingDirectorySize` bytes, or NULL.
  pub cwd : Option Bytes
  -- `currentWorkingDirectorySize`, as it is used while there is no buffer.
  pub cwd_size : ℕ
  pub starting_cwd : Option Bytes
  pub buf : Option Bytes
  pub buf_size : ℕ
  pub do_alloc_buf : Bool
  pub cur_transfer_type : ℕ
  pub has_size : Availability
  pub has_mdtm : Availability
  pub has_mdtm_set : Availability
  pub has_mfmt : Availability
  pub has_mff : Availability
  pub has_mlst : Availability
  pub has_site_utime : Availability
  pub has_nlst_a : Availability
  pub stat_file_param_works : Availability
  pub nlst_file_param_works : Availability
  pub features : Features
  pub used_mls : Bool
  pub mls_features : ℕ
  pub ietf_compat_level : ℕ
  pub server_type : ℕ
  pub connected : Bool
  pub logged_in : Bool
  -- `ctrlSocketW != kClosedFileDescriptor`
  pub ctrl_open : Bool
  pub data_timed_out : Bool
  pub sent : List Bytes
  pub input : List Readline
  pub peer : List Bytes → List Readline
  pub writes : List Bytes → Written
  pub poll : List Readline → Bool
  pub malloc : ℕ → Bool
  pub allocs : ℕ
  pub junk : Bytes

abbrev pub M : Type 0 → Type 0
M A = Conn → Option (A × Conn)

-- What is done with the result and the block after a step.
abbrev pub then_do : {A B : Type 0} → (A → M B) → Option (A × Conn) → Option (B × Conn)
then_do f none = none
then_do f (some (a, c)) = f a c

infixl 5 ◌>>=◌ ◌>>◌
abbrev pub ◌>>=◌ : {A B : Type 0} → M A → (A → M B) → M B
◌>>=◌ m f c = then_do f (m c)

abbrev pub ◌>>◌ : {A B : Type 0} → M A → M B → M B
m >> k = m >>= λ _. k

abbrev pub return : {A : Type 0} → A → M A
return a c = some (a, c)

abbrev pub fault : {A : Type 0} → M A
fault c = none

abbrev pub gets : {A : Type 0} → (Conn → A) → M A
gets f c = some (f c, c)

abbrev pub modify : (Conn → Conn) → M (Unit {0})
modify f c = some (tt, f c)

-- `cip->errNo = e; return (e);`
abbrev pub fail_with : ℤ → M ℤ
fail_with e c = some (e, record c { err_no = e })

-- kLibraryMagic
abbrev pub library_magic : Bytes
library_magic = codes "LibNcFTP 3.2.6"

-- `if (strcmp(cip->magic, kLibraryMagic)) return (kErrBadMagic);`
abbrev pub check_magic : M ℤ → M ℤ
check_magic body c = if strcmp_eq c.magic library_magic then body c else some (k_err_bad_magic, c)

-- `malloc(n) != NULL`
abbrev pub allocate : M Bool
allocate c = some (c.malloc c.allocs, record c { allocs = c.allocs + 1 })

-- `memset(cip->buf, 0, cip->bufSize)`, and the buffer is freed if the library made it.
unfoldable pub dispose_buf : Bool → Option Bytes → Option Bytes
dispose_buf owned none = none
dispose_buf true (some b) = none
dispose_buf false (some b) = some (replicate (length b) 0)

-- The size is reset if there is a buffer to free.
pub size_without : Option Bytes → ℕ → ℕ
size_without none size = size
size_without (some b) size = 0

-- FTPDeallocateHost
unfoldable pub deallocate_host : Conn → Conn
unfolding dispose_buf size_without
deallocate_host c = record c {
  buf = dispose_buf c.do_alloc_buf c.buf;
  cwd = none;
  cwd_size = size_without c.cwd c.cwd_size;
  starting_cwd = none;
  last_result_ll = [];
}

-- FTPCloseControlConnection
unfoldable pub close_control_connection : Conn → Conn
close_control_connection c = record c { ctrl_open = false; connected = false; logged_in = false }

-- FTPShutdownHost. The data connection and the sockets' options are not part of this state.
unfoldable pub shutdown_host : Conn → Conn
unfolding deallocate_host close_control_connection
shutdown_host c =
    if strcmp_eq c.magic library_magic then deallocate_host (close_control_connection c) else c
