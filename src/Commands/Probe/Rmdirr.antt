-- ===== src/Commands/Probe/Rmdirr.antt =====
-- libncftp/c_rmdirr.c. FTPRmdirRecursiveL2 calls itself for each directory that it finds, as deep as
-- the server says: it is on fuel, and a fault when that is spent.
use libncftp.Base.{
  ℕ, zero, suc, Bool, true, false, not, ◌&&◌, ◌||◌, [], ◌∷◌, List, none, some, Bytes, codes,
  if◌then◌else◌, ℤ, pos, is_neg, int_eq, strcmp_eq,
}
use libncftp.Conn.{M, ◌>>=◌, ◌>>◌, return, fault, fail_with}
use libncftp.Conn.Errors.{k_no_err}
use libncftp.Commands.Directory.{chdir}
use libncftp.Commands.Buf.{get_cwd_into_buf, chdir_to_buf}
use libncftp.Commands.Batch.{delete}
use libncftp.Commands.Probe.{Readers}
use libncftp.Commands.Probe.Kind.{is_dir}
use libncftp.Commands.Glob.{remote_glob}
use libncftp.Commands.Batch.{rmdir}
use libncftp.Conn.Errors.{k_err_glob_no_match, k_err_cannot_go_to_prev_dir}

-- `file` is "." or "..".
abbrev pub is_dot : Bytes → Bool
is_dot file = strcmp_eq file (codes ".") || strcmp_eq file (codes "..")

-- FTPRmdir and FTPDelete as they are called here, without recursion and wildcards.
abbrev pub remove_dir : Readers → Bytes → M ℤ
remove_dir readers file = rmdir readers.net (λ dir. fault) (some file) false false

abbrev pub remove_file : Readers → Bytes → M ℤ
remove_file readers file = delete readers.net (λ dir. fault) (some file) false false

-- A directory in the listing: the error that ends the loop if there is one, and else the result.
unfoldable pub remove_subdir : Readers → Bool → M ℤ → Bytes → M (Bool × ℤ)
unfolding rmdir chdir
remove_subdir readers empty_only deeper file = do
  result ← deeper
  back ← chdir (some (codes ".."))
  if not (int_eq back k_no_err)
      then (do e ← fail_with k_err_cannot_go_to_prev_dir; return (true, e))
      else if is_neg result && not (int_eq result k_err_glob_no_match)
      then return (true, result)
      else (do
        result ← remove_dir readers file
        return (not (int_eq result k_no_err) && not empty_only, result))

-- The loop of FTPRmdirRecursiveL2; `deeper` is its call of itself.
unfoldable pub remove_entries : Readers → Bytes → Bool → M ℤ → ℤ → List Bytes → M ℤ
unfolding remove_subdir delete is_dir strcmp_eq
remove_entries readers unwritten empty_only deeper result [] = return result
remove_entries readers unwritten empty_only deeper result (file ∷ files) =
    if is_dot file then remove_entries readers unwritten empty_only deeper result files else (do
      kind ← is_dir readers unwritten (some file)
      if int_eq kind (pos 1)
          then (do
            ended ← remove_subdir readers empty_only deeper file
            if ended.0
                then return ended.1
                else remove_entries readers unwritten empty_only deeper ended.1 files)
          else if empty_only
          then remove_entries readers unwritten empty_only deeper result files
          else (do
            result ← remove_file readers file
            remove_entries readers unwritten empty_only deeper result files))

-- FTPRmdirRecursiveL2
unfoldable pub rmdir_recursive_l2 : Readers → Bytes → Bool → ℕ → M ℤ
unfolding remove_entries remote_glob
rmdir_recursive_l2 readers unwritten empty_only zero c = none
rmdir_recursive_l2 readers unwritten empty_only (suc n) c =
    (do
      pair ← remote_glob readers.net (some (codes "**")) true
      if int_eq pair.0 k_no_err
          then remove_entries readers unwritten empty_only
              (rmdir_recursive_l2 readers unwritten empty_only n) k_no_err pair.1
          else return pair.0)
      c

-- The end of FTPRmdirRecursive2: back to where PWD said, and the removal of the directory itself.
unfoldable pub remove_root : Readers → Bytes → ℤ → M ℤ
unfolding chdir_to_buf rmdir
remove_root readers dir result = do
  back ← chdir_to_buf
  if int_eq back k_no_err
      then (do
        result2 ← remove_dir readers dir
        return (if int_eq result k_no_err then result2 else result))
      else if int_eq result k_no_err
      then return result
      else fail_with k_err_cannot_go_to_prev_dir

-- FTPRmdirRecursive2
unfoldable pub rmdir_recursive2 : Readers → Bytes → ℕ → Bytes → Bool → M ℤ
unfolding get_cwd_into_buf is_dir chdir rmdir_recursive_l2 remove_root
rmdir_recursive2 readers unwritten fuel dir empty_only = do
  get_cwd_into_buf
  result ← is_dir readers unwritten (some dir)
  if int_eq result k_no_err
      then (do
        result ← chdir (some dir)
        if int_eq result k_no_err
            then (do
              result ← rmdir_recursive_l2 readers unwritten empty_only fuel
              remove_root readers dir result)
            else return result)
      else return result

-- FTPRmdirRecursive
unfoldable pub rmdir_recursive : Readers → Bytes → ℕ → Bytes → M ℤ
unfolding rmdir_recursive2
rmdir_recursive readers unwritten fuel dir = rmdir_recursive2 readers unwritten fuel dir false
