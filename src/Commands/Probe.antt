-- ===== src/Commands/Probe.antt =====
-- libncftp/c_mlist1.c, and the parts of c_exists.c, c_filetype.c, c_sizemdtm.c, c_rhelp.c and
-- c_rmdirr.c in the modules below: what is on the server.
--
-- UnMlsT, which reads a line of facts, is an argument; so are the readers of FTPFileSize and
-- FTPFileModificationTime and the data connection. They are the fields of `Readers`.
pub mod Laws
pub mod Stat
pub mod Nlst
pub mod Kind
pub mod Facts
pub mod Rmdirr
use libncftp.Base.{
  ℕ, zero, suc, ◌+◌, ◌-◌, ◌/◌, ◌%◌, Bool, true, false, not, ◌&&◌, ◌||◌, [], ◌∷◌, ◌++◌, List, Option,
  none, some, Bytes, codes, if◌then◌else◌, ◌==◌, ltb, leb, ℤ, pos, neg, is_neg, int_eq, length,
  strcmp_eq, strncmp_eq, c_string, unsnoc,
}
use libncftp.Conn.{
  Conn, M, Availability, unknown, available, not_available, ◌>>=◌, ◌>>◌, return, modify, gets,
  fault, fail_with, check_magic, library_magic,
}
use libncftp.Conn.Errors.{
  k_no_err, k_err_bad_magic, k_err_bad_parameter, k_err_malloc_failed, k_err_mdtm_failed,
  k_err_mlst_failed, k_err_invalid_mlst_response, k_err_mlst_not_available, k_err_stat_failed,
  k_err_stat_with_file_not_available, k_err_nlst_failed, k_err_nlst_with_file_not_available,
  k_err_no_such_file_or_directory, k_err_cant_tell_if_file_exists,
  k_err_file_exists_but_cannot_determine_type, k_err_invalid_dir_param, k_err_help_failed,
}
use libncftp.Reply.{Response, add_line, init_response, done_with_response}
use libncftp.Command.{ftp_cmd, r_cmd}
use libncftp.Commands.Ask.{ask, unimplemented_cmd}
use libncftp.Commands.TransferType.{set_transfer_type}
use libncftp.Commands.Facts.{is_not_available, file_size, file_modification_time, not_known}
use libncftp.Commands.Directory.{array, get_cwd, chdir}
use libncftp.Commands.Buf.{get_cwd_into_buf, chdir_to_buf}
use libncftp.Commands.Glob.{DataConnection}
use libncftp.Commands.Batch.{delete}

-- What UnMlsT finds in a line: `ftype`, `fsize` and `ftime` of `MLstItem`.
pub record MlstItem : Type 0 where
  pub ftype : ℕ
  pub fsize : ℤ
  pub ftime : ℤ

pub record Readers : Type 0 where
  pub un_mls_t : Bytes → Option MlstItem
  pub scan_size : Bytes → ℤ → ℤ
  pub un_mdtm_date : Bytes → ℤ
  pub net : DataConnection

-- Whether a bit of `mlsFeatures` is set.
abbrev pub has_bit : ℕ → ℕ → Bool
has_bit bit n = not ((n / bit) % 2 == 0)

abbrev pub mls_option : ℕ → ℕ → Bytes → Bytes
mls_option features bit text = if has_bit bit features then text else []

-- `optstr`. The bit of `unique` is none of kPreferredMlsOpts.
unfoldable pub mls_options : ℕ → Bytes
mls_options f =
    mls_option f 1 (codes "type;")
    ++ mls_option f 2 (codes "size;")
    ++ mls_option f 4 (codes "modify;")
    ++ mls_option f 8 (codes "UNIX.mode;")
    ++ mls_option f 64 (codes "perm;")
    ++ mls_option f 16 (codes "UNIX.owner;")
    ++ mls_option f 128 (codes "UNIX.uid;")
    ++ mls_option f 32 (codes "UNIX.group;")
    ++ mls_option f 256 (codes "UNIX.gid;")

-- FTPRequestMlsOptions
unfoldable pub request_mls_options : M (Unit {0})
unfolding mls_options
request_mls_options c =
    if c.used_mls
    then some (tt, c)
    else (do
      modify (λ d. record d { used_mls = true })
      elim (mls_options c.mls_features) [
        | [] ↦ return tt
        | o ∷ options ↦ do ftp_cmd (codes "OPTS MLST " ++ (o ∷ options)); return tt
      ])
        c

-- kServerTypeNcFTPd and kServerTypeRoxen
abbrev pub server_type_ncftpd : ℕ
server_type_ncftpd = 2

abbrev pub server_type_roxen : ℕ
server_type_roxen = 10

-- The servers whose MLST is not used.
abbrev pub no_mlst : Conn → Bool
no_mlst c =
    is_not_available c.has_mlst
    || (c.server_type == server_type_ncftpd && ltb c.ietf_compat_level 19981201)
    || c.server_type == server_type_roxen

-- `cip->errNo = e; result = e;` with an item, which is none.
abbrev pub fail_item : {A : Type 0} → ℤ → M (ℤ × Option A)
fail_item e = do e ← fail_with e; return (e, none)

-- A reply to MLST that has no second line, or is not of class 2.
unfoldable pub mlst_refused : ℕ → M (ℤ × Option MlstItem)
mlst_refused code =
    if unimplemented_cmd code
    then (do
      modify (λ c. record c { has_mlst = not_available })
      fail_item k_err_mlst_not_available)
    else fail_item k_err_mlst_failed

-- What UnMlsT makes of the second line.
unfoldable pub use_facts : Option MlstItem → M (ℤ × Option MlstItem)
use_facts none = fail_item k_err_invalid_mlst_response
use_facts (some item) = return (k_no_err, some item)

-- A reply of class 2; without a line it is read through NULL.
unfoldable pub read_mlst : (Bytes → Option MlstItem) → ℕ → List Bytes → M (ℤ × Option MlstItem)
unfolding mlst_refused use_facts
read_mlst un_mls_t code [] = fault
read_mlst un_mls_t code (_ ∷ []) = mlst_refused code
read_mlst un_mls_t code (_ ∷ facts ∷ _) = use_facts (un_mls_t facts)

-- The reply to MLST.
unfoldable pub use_mlst : (Bytes → Option MlstItem) → ℤ → Response → M (ℤ × Option MlstItem)
unfolding read_mlst
use_mlst un_mls_t result rp =
    if int_eq result (pos 2) then read_mlst un_mls_t rp.code rp.msg else mlst_refused rp.code

-- MLST, behind InitResponse.
unfoldable pub ask_mlst : (Bytes → Option MlstItem) → Bytes → Response → M (ℤ × Option MlstItem)
unfolding request_mls_options use_mlst
ask_mlst un_mls_t file rp = do
  request_mls_options
  answer ← r_cmd rp (codes "MLST " ++ file)
  pair ← use_mlst un_mls_t answer.0 answer.1
  modify (done_with_response (some answer.1))
  return pair

-- FTPMListOneFile
unfoldable pub mlist_one_file : (Bytes → Option MlstItem) → Bytes → M (ℤ × Option MlstItem)
unfolding ask_mlst
mlist_one_file un_mls_t file c =
    if no_mlst c
    then fail_item k_err_mlst_not_available c
    else (do
      rp ← init_response
      elim rp [ none ↦ fail_item k_err_malloc_failed | some rp ↦ ask_mlst un_mls_t file rp ])
        c
