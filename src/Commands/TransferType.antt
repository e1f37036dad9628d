-- ===== src/Commands/TransferType.antt =====
-- libncftp/c_type.c.
pub mod Laws
use libncftp.Base.{
  ℕ, Bool, true, false, ◌||◌, [], ◌∷◌, ◌++◌, Option, none, some, Bytes, codes, if◌then◌else◌, ◌==◌,
  ℤ, pos, int_eq,
}
use libncftp.Conn.{Conn, M, ◌>>=◌, ◌>>◌, return, modify, fail_with, check_magic}
use libncftp.Conn.Errors.{k_no_err, k_err_bad_transfer_type, k_err_type_failed}
use libncftp.Command.{ftp_cmd}

-- The `switch` on the requested type: the type that is sent, if it is one that is known.
pub canonical_type : ℕ → Option ℕ
canonical_type type =
    if type == b'A' || type == b'I' || type == b'E'
    then some type
    else if type == b'i' || type == b'b' || type == b'B'
    then some b'I'
    else if type == b'e'
    then some b'E'
    else if type == b'a'
    then some b'A'
    else none

-- Behind the `switch`.
unfoldable pub send_type : Option ℕ → M ℤ
send_type none = fail_with k_err_bad_transfer_type
send_type (some type) = do
  result ← ftp_cmd (codes "TYPE " ++ (type ∷ []))
  if int_eq result (pos 2)
      then (λ c. some (k_no_err, record c { cur_transfer_type = type }))
      else fail_with k_err_type_failed

-- FTPSetTransferType
unfoldable pub set_transfer_type : ℕ → M ℤ
set_transfer_type type = check_magic λ c.
    if c.cur_transfer_type == type then some (k_no_err, c) else send_type (canonical_type type) c
