-- ===== src/Opening/Init.antt =====
-- libncftp/open.c, FTPInitConnectionInfo2 and FTPInitConnectionInfo: a fresh connection block.
--
-- `FTPLibraryInfo` enters by its magic and its default port. What a file descriptor of 0 is, which is
-- not kClosedFileDescriptor, counts as an open control connection. The server, the memory and the
-- rest of the environment stay; of the block's own fields none does.
use libncftp.Base.{
  ℕ, Bool, true, false, not, [], Option, none, some, Bytes, codes, ◌==◌, if◌then◌else◌, ℤ, pos,
  strcmp_eq,
}
use libncftp.Conn.{Features, Account, Conn, M, unknown, not_available, library_magic}
use libncftp.Conn.Errors.{k_no_err, k_err_bad_parameter, k_err_bad_magic}
use libncftp.Login.{firewall_not_in_use}

-- kDefaultPathBufSize
abbrev pub default_path_buf_size : ℕ
default_path_buf_size = 4096

-- `memset(cip, 0, siz);`, where 0 is kCommandNotAvailable.
abbrev pub zero_features : Features
zero_features = record {
  has_pasv = not_available;
  has_rest = not_available;
  has_nlst_d = not_available;
  has_feat = not_available;
  has_mlsd = not_available;
  has_clnt = not_available;
  has_help_site = not_available;
  has_retr_tar = not_available;
  has_site_retrbufsize = not_available;
  has_site_rbufsiz = not_available;
  has_site_rbufsz = not_available;
  has_site_storbufsize = not_available;
  has_site_sbufsiz = not_available;
  has_site_sbufsz = not_available;
  has_site_bufsize = not_available;
}

abbrev pub zero_account : Account
zero_account = record {
  host = [];
  port = codes "0";
  user = [];
  pass = [];
  acct = [];
  pass_is_empty = false;
  leave_pass = false;
  firewall_type = 0;
  firewall_user = [];
  firewall_pass = [];
  do_not_get_starting_cwd = false;
}

unfoldable pub zeroed : Conn → Conn
zeroed c = record c {
  magic = [];
  account = zero_account;
  err_no = pos 0;
  last_result_str = [];
  last_result_num = pos 0;
  last_result_ll = [];
  cwd = none;
  cwd_size = 0;
  starting_cwd = none;
  buf = none;
  buf_size = 0;
  do_alloc_buf = false;
  cur_transfer_type = 0;
  has_size = not_available;
  has_mdtm = not_available;
  has_mdtm_set = not_available;
  has_mfmt = not_available;
  has_mff = not_available;
  has_mlst = not_available;
  has_site_utime = not_available;
  has_nlst_a = not_available;
  stat_file_param_works = not_available;
  nlst_file_param_works = not_available;
  features = zero_features;
  used_mls = false;
  mls_features = 0;
  ietf_compat_level = 0;
  server_type = 0;
  connected = false;
  logged_in = false;
  ctrl_open = true;
  data_timed_out = false;
  input = [];
}

-- hasSITE_BUFSIZE is not among the features that are unknown at first.
abbrev pub unknown_at_first : Features
unknown_at_first = record {
  has_pasv = unknown;
  has_rest = unknown;
  has_nlst_d = unknown;
  has_feat = unknown;
  has_mlsd = unknown;
  has_clnt = unknown;
  has_help_site = unknown;
  has_retr_tar = unknown;
  has_site_retrbufsize = unknown;
  has_site_rbufsiz = unknown;
  has_site_rbufsz = unknown;
  has_site_storbufsize = unknown;
  has_site_sbufsiz = unknown;
  has_site_sbufsz = unknown;
  has_site_bufsize = not_available;
}

abbrev pub is_null : Option Bytes → Bool
is_null none = true
is_null (some b) = false

-- A fresh block.
unfoldable pub fresh_block : Bytes → Option Bytes → ℕ → Conn → Conn
unfolding zeroed
fresh_block default_port buf buf_size c = record (zeroed c) {
  buf = buf;
  do_alloc_buf = is_null buf;
  buf_size = buf_size;
  account = record zero_account {
    port = default_port;
    user = codes "anonymous";
    firewall_type = firewall_not_in_use;
  };
  ctrl_open = false;
  has_size = unknown;
  has_mdtm = unknown;
  has_mdtm_set = unknown;
  has_mfmt = unknown;
  has_mff = unknown;
  has_nlst_a = unknown;
  has_mlst = unknown;
  has_site_utime = unknown;
  stat_file_param_works = unknown;
  nlst_file_param_works = unknown;
  features = unknown_at_first;
  cwd_size = default_path_buf_size;
  magic = library_magic;
}

-- FTPInitConnectionInfo2; `buf` is the application's buffer, or NULL.
unfoldable pub init_connection_info2 : Bytes → Bytes → Option Bytes → ℕ → M ℤ
unfolding zeroed fresh_block
init_connection_info2 lip_magic default_port buf buf_size c =
    if buf_size == 0
    then some (k_err_bad_parameter, c)
    else if not (strcmp_eq lip_magic library_magic)
    then some (k_err_bad_magic, zeroed c)
    else some (k_no_err, fresh_block default_port buf buf_size c)

-- FTPInitConnectionInfo
unfoldable pub init_connection_info : Bytes → Bytes → ℕ → M ℤ
unfolding init_connection_info2
init_connection_info lip_magic default_port buf_size =
    init_connection_info2 lip_magic default_port none buf_size
