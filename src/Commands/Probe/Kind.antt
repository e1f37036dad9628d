-- ===== src/Commands/Probe/Kind.antt =====
-- FTPFileExists2 of libncftp/c_exists.c, and libncftp/c_filetype.c.
use libncftp.Base.{
  ℕ, Bool, true, false, ◌||◌, [], ◌∷◌, Option, none, some, Bytes, if◌then◌else◌, ◌==◌, ℤ, pos,
  int_eq, strcmp_eq,
}
use libncftp.Conn.{M, ◌>>=◌, ◌>>◌, return, fail_with, check_magic, library_magic}
use libncftp.Conn.Errors.{
  k_no_err, k_err_bad_magic, k_err_bad_parameter, k_err_mdtm_failed, k_err_mlst_failed,
  k_err_stat_failed, k_err_nlst_failed, k_err_no_such_file_or_directory,
  k_err_cant_tell_if_file_exists, k_err_file_exists_but_cannot_determine_type,
  k_err_invalid_dir_param,
}
use libncftp.Commands.Facts.{file_size, file_modification_time}
use libncftp.Commands.Directory.{chdir}
use libncftp.Commands.Buf.{get_cwd_into_buf, chdir_to_buf}
use libncftp.Commands.Probe.{Readers, mlist_one_file}
use libncftp.Commands.Probe.Stat.{file_exists_stat}
use libncftp.Commands.Probe.Nlst.{file_exists_nlst}

-- One of the ways of FTPFileExists2: none if it does not tell. A result of the error `missing` says
-- that there is no such file.
unfoldable pub one_way : Bool → M ℤ → Option ℤ → M (Option ℤ)
one_way try way missing =
    if try
    then (do
      result ← way
      if int_eq result k_no_err
          then return (some k_no_err)
          else if (elim missing [ none ↦ false | some e ↦ int_eq result e ])
          then (do e ← fail_with k_err_no_such_file_or_directory; return (some e))
          else return none)
    else return none

-- The first of two ways that tells.
abbrev pub or_else : M (Option ℤ) → M (Option ℤ) → M (Option ℤ)
or_else first second = do e ← first; elim e [ some e ↦ return (some e) | none ↦ second ]

pub record Tries : Type 0 where
  pub mdtm : Bool
  pub size : Bool
  pub mlst : Bool
  pub stat : Bool
  pub nlst : Bool

-- FTPFileExists2, for a file that is not NULL.
unfoldable pub file_exists2 : Readers → Bytes → Bytes → Tries → M ℤ
unfolding one_way file_modification_time file_size mlist_one_file file_exists_stat file_exists_nlst
file_exists2 readers unwritten file tries = do
  e ←
      or_else
        (one_way tries.mdtm
          (do pair ← file_modification_time readers.un_mdtm_date (some file) true; return pair.0)
          (some k_err_mdtm_failed))
        (or_else
          (one_way tries.size
            (do pair ← file_size readers.scan_size (some file) true b'I'; return pair.0) none)
          (or_else
            (one_way tries.mlst (do pair ← mlist_one_file readers.un_mls_t file; return pair.0)
              (some k_err_mlst_failed))
            (or_else
              (one_way tries.stat (file_exists_stat readers unwritten (some file))
                (some k_err_stat_failed))
              (one_way tries.nlst (file_exists_nlst readers unwritten (some file))
                (some k_err_nlst_failed)))))
  elim e [ some e ↦ return e | none ↦ fail_with k_err_cant_tell_if_file_exists ]

-- FTPFileExists
unfoldable pub file_exists : Readers → Bytes → Bytes → M ℤ
unfolding file_exists2
file_exists readers unwritten file =
    file_exists2 readers unwritten file
      (record { mdtm = true; size = true; mlst = true; stat = true; nlst = true })

-- FTPFileType behind its parameter checks: the result and `*ftype`.
unfoldable pub find_file_type : Readers → Bytes → Bytes → M (ℤ × ℕ)
unfolding mlist_one_file get_cwd_into_buf chdir chdir_to_buf file_exists2
find_file_type readers unwritten file = do
  pair ← mlist_one_file readers.un_mls_t file
  elim (if int_eq pair.0 k_no_err then pair.1 else none) [
    | some item ↦ return (k_no_err, item.ftype)
    | none ↦ do
      get_cwd_into_buf
      result ← chdir (some file)
      if int_eq result k_no_err then (do chdir_to_buf; return (k_no_err, b'd')) else (do
        e ←
            file_exists2 readers unwritten file
              (record { mdtm = true; size = true; mlst = false; stat = true; nlst = true })
        return (
          if int_eq e k_err_no_such_file_or_directory
              then e
              else k_err_file_exists_but_cannot_determine_type,
          0,
        ))
  ]

-- FTPFileType, for a `ftype` that is not NULL.
unfoldable pub file_type : Readers → Bytes → Option Bytes → M (ℤ × ℕ)
unfolding find_file_type
file_type readers unwritten file c =
    if strcmp_eq c.magic library_magic
    then (elim file [
      | none ↦ (do e ← fail_with k_err_bad_parameter; return (e, 0)) c
      | some [] ↦ (do e ← fail_with k_err_bad_parameter; return (e, 0)) c
      | some (b ∷ name) ↦ find_file_type readers unwritten (b ∷ name) c
    ])
    else some ((k_err_bad_magic, 0), c)

-- `(result == kNoErr) || (result == kErrFileExistsButCannotDetermineType)`
abbrev pub type_known : ℤ → Bool
type_known result =
    int_eq result k_no_err || int_eq result k_err_file_exists_but_cannot_determine_type

-- FTPIsDir
unfoldable pub is_dir : Readers → Bytes → Option Bytes → M ℤ
unfolding file_type
is_dir readers unwritten none = check_magic (fail_with k_err_invalid_dir_param)
is_dir readers unwritten (some []) = check_magic (fail_with k_err_invalid_dir_param)
is_dir readers unwritten (some (b ∷ dir)) = check_magic (do
  pair ← file_type readers unwritten (some (b ∷ dir))
  return (if type_known pair.0 then (if pair.1 == b'd' then pos 1 else pos 0) else pair.0))

-- FTPIsRegularFile
unfoldable pub is_regular_file : Readers → Bytes → Option Bytes → M ℤ
unfolding file_type
is_regular_file readers unwritten none = check_magic (fail_with k_err_bad_parameter)
is_regular_file readers unwritten (some []) = check_magic (fail_with k_err_bad_parameter)
is_regular_file readers unwritten (some (b ∷ file)) = check_magic (do
  pair ← file_type readers unwritten (some (b ∷ file))
  return (if type_known pair.0 then (if pair.1 == b'd' then pos 0 else pos 1) else pair.0))
