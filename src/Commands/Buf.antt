-- ===== src/Commands/Buf.antt =====
-- libncftp/c_mkdir.c: the directory that FTPMkdir2 remembers in `cip->buf`, and goes back to.
use libncftp.Base.{
  ◌||◌, [], ◌∷◌, ◌++◌, Option, none, some, Bytes, codes, if◌then◌else◌, ℤ, pos, is_neg, int_eq,
  c_string,
}
use libncftp.Conn.{M, ◌>>=◌, ◌>>◌, return, modify, fail_with}
use libncftp.Conn.Errors.{
  k_no_err, k_err_mkd_failed, k_err_cannot_go_to_prev_dir, k_err_path_too_long,
}
use libncftp.Command.{ftp_cmd}
use libncftp.Commands.Directory.{array, nowhere, get_cwd, chdir}

-- The buffer after FTPGetCWD: the array if a directory was copied there, and else as it is.
unfoldable pub with_copy : ℤ → Bytes → Option Bytes → Option Bytes
with_copy result out none = none
with_copy result out (some b) =
    some (if int_eq result k_no_err || int_eq result k_err_path_too_long then out else b)

-- `FTPGetCWD(cip, cip->buf, cip->bufSize)`, for the given buffer.
unfoldable pub get_cwd_into : Option Bytes → M ℤ
unfolding get_cwd with_copy
get_cwd_into none = do pair ← get_cwd nowhere; return pair.0
get_cwd_into (some b) = do
  pair ← get_cwd (array b)
  modify (λ d. record d { buf = with_copy pair.0 pair.1 d.buf })
  return pair.0

unfoldable pub get_cwd_into_buf : M ℤ
unfolding get_cwd_into
get_cwd_into_buf c = get_cwd_into c.buf c

-- `cip->buf` as a path: a buffer without a NUL is read past its end.
unfoldable pub read_buf : Option Bytes → Option (Option Bytes)
unfolding c_string
read_buf none = some none
read_buf (some b) = elim (c_string b) [ none ↦ none | some dir ↦ some (some dir) ]

-- `FTPChdir(cip, cip->buf)`
unfoldable pub chdir_to_buf : M ℤ
unfolding chdir read_buf
chdir_to_buf c = elim (read_buf c.buf) [ none ↦ none | some dir ↦ chdir dir c ]

-- Where the caller says, if he does, and else where PWD said.
unfoldable pub go_back : Option Bytes → M ℤ
unfolding chdir_to_buf
go_back none = chdir_to_buf
go_back (some []) = chdir_to_buf
go_back (some (b ∷ dir)) = chdir (some (b ∷ dir))

unfoldable pub note_cwd : Option Bytes → M (Unit {0})
unfolding get_cwd_into_buf
note_cwd none = do get_cwd_into_buf; return tt
note_cwd (some []) = do get_cwd_into_buf; return tt
note_cwd (some (b ∷ dir)) = return tt

-- The branch for a directory that exists.
unfoldable pub already_there : Option Bytes → M ℤ
unfolding go_back
already_there cur_dir = do
  result ← go_back cur_dir
  if is_neg result then fail_with k_err_cannot_go_to_prev_dir else return k_no_err

-- The branch without recursion. A result of 0 is returned as it is.
unfoldable pub make_one : Bytes → M ℤ
make_one dir = do
  result ← ftp_cmd (codes "MKD " ++ dir)
  if is_neg result || int_eq result (pos 0)
      then return result
      else if int_eq result (pos 2)
      then return k_no_err
      else fail_with k_err_mkd_failed
