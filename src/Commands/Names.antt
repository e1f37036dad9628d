-- ===== src/Commands/Names.antt =====
-- libncftp/c_rename.c, c_umask.c and c_symlink.c.
pub mod Laws
use libncftp.Base.{
  ℕ, Bool, true, false, [], ◌∷◌, ◌++◌, Option, none, some, Bytes, codes, if◌then◌else◌, ℤ, pos,
  is_neg, int_eq,
}
use libncftp.Conn.{Conn, M, ◌>>=◌, return, fail_with, check_magic}
use libncftp.Conn.Errors.{
  k_no_err, k_err_bad_parameter, k_err_rename_failed, k_err_umask_failed, k_err_symlink_failed,
}
use libncftp.Command.{ftp_cmd}

-- The two commands of FTPRename. The test of `newname` for the empty text looks at `oldname` instead,
-- so `newname` may be empty.
unfoldable pub rename_steps : Bytes → Bytes → M ℤ
rename_steps oldname newname = do
  result ← ftp_cmd (codes "RNFR " ++ oldname)
  if is_neg result
      then return result
      else if int_eq result (pos 3)
      then (do
        result ← ftp_cmd (codes "RNTO " ++ newname)
        if is_neg result
            then return result
            else if int_eq result (pos 2)
            then return k_no_err
            else fail_with k_err_rename_failed)
      else fail_with k_err_rename_failed

-- FTPRename
unfoldable pub rename : Option Bytes → Option Bytes → M ℤ
unfolding rename_steps
rename none newname = check_magic (return k_err_bad_parameter)
rename (some []) newname = check_magic (return k_err_bad_parameter)
rename (some (b ∷ oldname)) none = check_magic (return k_err_bad_parameter)
rename (some (b ∷ oldname)) (some newname) = check_magic (rename_steps (b ∷ oldname) newname)

-- `if (FTPCmd(...) == 2) return (kNoErr); cip->errNo = e; return (e);`
abbrev one_command : Bytes → ℤ → M ℤ
one_command command e = do
  result ← ftp_cmd command
  if int_eq result (pos 2) then return k_no_err else fail_with e

-- FTPUmask
unfoldable pub umask : Option Bytes → M ℤ
umask none = check_magic (return k_err_bad_parameter)
umask (some []) = check_magic (return k_err_bad_parameter)
umask (some (b ∷ umsk)) =
    check_magic (one_command (codes "SITE UMASK " ++ (b ∷ umsk)) k_err_umask_failed)

-- FTPSymlink
unfoldable pub symlink : Option Bytes → Option Bytes → M ℤ
symlink none lto = check_magic (return k_err_bad_parameter)
symlink (some lfrom) none = check_magic (return k_err_bad_parameter)
symlink (some []) (some lto) = check_magic (return k_err_bad_parameter)
symlink (some (a ∷ lfrom)) (some []) = check_magic (return k_err_bad_parameter)
symlink (some (a ∷ lfrom)) (some (b ∷ lto)) =
    check_magic (
      one_command (codes "SITE SYMLINK " ++ ((a ∷ lfrom) ++ (b' ' ∷ b ∷ lto))) k_err_symlink_failed)
