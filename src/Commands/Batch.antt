-- ===== src/Commands/Batch.antt =====
-- libncftp/c_chmod.c, c_delete.c and c_rmdir.c: one command for each of a list of names.
--
-- No line of a line list is NULL, so the branch kErrBadLineList is not reached. FTPRmdirRecursive,
-- which calls FTPRmdir and FTPDelete without recursion, is an argument of the recursive calls here.
pub mod Laws
use libncftp.Base.{
  ℕ, Bool, true, false, [], ◌∷◌, ◌++◌, List, Option, none, some, Bytes, codes, if◌then◌else◌, ℤ,
  pos, neg, is_neg, int_eq,
}
use libncftp.Conn.{Conn, M, ◌>>=◌, ◌>>◌, return, modify, fail_with, check_magic}
use libncftp.Conn.Errors.{k_no_err, k_err_rmd_failed, k_err_chmod_failed, k_err_dele_failed}
use libncftp.Command.{ftp_cmd}
use libncftp.Commands.Glob.{DataConnection, remote_glob}

-- The loop over the names: `each` gives none to leave the loop's result as it is, a failure to go on
-- with, or an error to break off with.
pub data Once : Type 0 where
  fine : Once
  noted : ℤ → Once
  broken : ℤ → Once

unfoldable pub for_each : (Bytes → M Once) → ℤ → List Bytes → M ℤ
for_each each batch_result [] = return batch_result
for_each each batch_result (file ∷ files) = do
  once ← each file
  elim once [
    | fine ↦ for_each each batch_result files
    | noted e ↦ for_each each e files
    | broken e ↦ return e
  ]

-- `batchResult = e; cip->errNo = e;` in the loop.
abbrev pub note : ℤ → M Once
note e = do e ← fail_with e; return (noted e)

-- SITE CHMOD for one file.
unfoldable pub chmod_once : Bytes → Bytes → M Once
chmod_once mode file = do
  once ← ftp_cmd (codes "SITE CHMOD " ++ mode ++ (b' ' ∷ file))
  if is_neg once
      then return (broken once)
      else if int_eq once (pos 2)
      then return fine
      else note k_err_chmod_failed

-- A directory that RMD does not remove; `remove_tree` is FTPRmdirRecursive.
unfoldable pub rmd_tree : (Bytes → M ℤ) → Bytes → M Once
rmd_tree remove_tree file = do
  once ← remove_tree file
  if is_neg once then note k_err_rmd_failed else return fine

-- RMD for one directory.
unfoldable pub rmd_once : (Bytes → M ℤ) → Bool → Bytes → M Once
unfolding rmd_tree
rmd_once remove_tree recurse file = do
  once ← ftp_cmd (codes "RMD " ++ file)
  if is_neg once
      then return (broken once)
      else if int_eq once (pos 2)
      then return fine
      else if recurse
      then rmd_tree remove_tree file
      else note k_err_rmd_failed

-- DELE for one file, and if it fails, in a recursive call, RMD.
unfoldable pub dele_once : (Bytes → M ℤ) → Bool → Bytes → M Once
unfolding rmd_once
dele_once remove_tree recurse file = do
  once ← ftp_cmd (codes "DELE " ++ file)
  if is_neg once
      then return (broken once)
      else if int_eq once (pos 2)
      then return fine
      else if recurse
      then rmd_once remove_tree true file
      else note k_err_dele_failed

-- FTPRemoteGlob, then the loop.
unfoldable pub over_names : DataConnection → Option Bytes → Bool → (Bytes → M Once) → M ℤ
unfolding remote_glob for_each
over_names net pattern do_glob each = check_magic (do
  pair ← remote_glob net pattern do_glob
  if int_eq pair.0 k_no_err then for_each each k_no_err pair.1 else return pair.0)

-- FTPChmod
unfoldable pub chmod : DataConnection → Option Bytes → Bytes → Bool → M ℤ
unfolding over_names chmod_once
chmod net pattern mode do_glob = over_names net pattern do_glob (chmod_once mode)

-- FTPDelete
unfoldable pub delete : DataConnection → (Bytes → M ℤ) → Option Bytes → Bool → Bool → M ℤ
unfolding over_names dele_once
delete net remove_tree pattern recurse do_glob =
    over_names net pattern do_glob (dele_once remove_tree recurse)

-- FTPRmdir
unfoldable pub rmdir : DataConnection → (Bytes → M ℤ) → Option Bytes → Bool → Bool → M ℤ
unfolding over_names rmd_once
rmdir net remove_tree pattern recurse do_glob =
    over_names net pattern do_glob (rmd_once remove_tree recurse)
