-- ===== src/Commands/Probe/Facts.antt =====
-- libncftp/c_sizemdtm.c, FTPRemoteHelp of c_rhelp.c, and CopyLineList of linelist.c.
use libncftp.Base.{
  ℕ, true, [], ◌∷◌, ◌++◌, List, Option, none, some, Bytes, codes, if◌then◌else◌, ◌==◌, ℤ, pos,
  is_neg, int_eq, length, strcmp_eq,
}
use libncftp.Conn.{Conn, M, ◌>>=◌, return, fail_with, library_magic}
use libncftp.Conn.Errors.{k_no_err, k_err_bad_magic, k_err_malloc_failed, k_err_help_failed}
use libncftp.Reply.{Response, add_line}
use libncftp.Commands.Ask.{ask}
use libncftp.Commands.TransferType.{set_transfer_type}
use libncftp.Commands.Facts.{file_size, file_modification_time, not_known}
use libncftp.Commands.Probe.{Readers, mlist_one_file}

-- What a variable holds that was set to `not_known` before.
abbrev pub value_of : Option ℤ → ℤ
value_of none = not_known
value_of (some v) = v

-- The facts in one MLST, or SIZE and then MDTM.
unfoldable pub size_and_time : Readers → Bytes → ℕ → M (ℤ × ℤ × ℤ)
unfolding mlist_one_file file_size file_modification_time
size_and_time readers file type = do
  pair ← mlist_one_file readers.un_mls_t file
  elim (if is_neg pair.0 then none else pair.1) [
    | some item ↦ return (pair.0, item.fsize, item.ftime)
    | none ↦ do
      size ← file_size readers.scan_size (some file) true type
      if is_neg size.0 then return (size.0, value_of size.1, not_known) else (do
        time ← file_modification_time readers.un_mdtm_date (some file) true
        return (time.0, value_of size.1, value_of time.1))
  ]

-- FTPFileSizeAndModificationTime, for pointers that are not NULL: the result, the size and the time.
unfoldable pub file_size_and_modification_time : Readers → Bytes → ℕ → M (ℤ × ℤ × ℤ)
unfolding size_and_time set_transfer_type
file_size_and_modification_time readers file type c =
    if strcmp_eq c.magic library_magic
    then (do
      result ← set_transfer_type type
      if is_neg result
          then return (result, not_known, not_known)
          else size_and_time readers file type)
        c
    else some ((k_err_bad_magic, not_known, not_known), c)

-- CopyLineList: none, and the copy is freed, where AddLine gets no memory.
unfoldable pub copy_line_list : List Bytes → List Bytes → Conn → Option (List Bytes) × Conn
unfolding add_line
copy_line_list dst [] c = (some dst, c)
copy_line_list dst (l ∷ ls) c =
    let (dst', c') = add_line dst l c in
    let more = copy_line_list dst' ls c' in if length dst' == length dst then (none, c') else more

-- The reply to HELP.
unfoldable pub use_help : ℤ → Response → M (ℤ × List Bytes)
unfolding copy_line_list
use_help result rp =
    if is_neg result
    then return (result, [])
    else if int_eq result (pos 2)
    then (λ c.
        let (copy, c') = copy_line_list [] rp.msg c in
        elim copy [
          | none ↦ (do e ← fail_with k_err_malloc_failed; return (e, [])) c'
          | some list ↦ some ((k_no_err, list), c')
        ])
    else (do e ← fail_with k_err_help_failed; return (e, []))

-- FTPRemoteHelp
unfoldable pub remote_help : Option Bytes → M (ℤ × List Bytes)
unfolding use_help
remote_help pattern c =
    if strcmp_eq c.magic library_magic
    then ask
        (elim pattern [
          | none ↦ codes "HELP"
          | some [] ↦ codes "HELP"
          | some (b ∷ text) ↦ codes "HELP " ++ (b ∷ text)
        ])
        (do e ← fail_with k_err_malloc_failed; return (e, [])) use_help c
    else some ((k_err_bad_magic, []), c)
