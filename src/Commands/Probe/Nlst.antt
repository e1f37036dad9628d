-- ===== src/Commands/Probe/Nlst.antt =====
-- FTPFileExistsNlst of libncftp/c_exists.c, which makes a file in an empty starting directory.
use libncftp.Base.{
  Bool, true, false, not, ◌&&◌, ◌||◌, [], ◌∷◌, ◌++◌, List, Option, none, some, Bytes, codes,
  if◌then◌else◌, ℤ, is_neg, int_eq, strncmp_eq,
}
use libncftp.Conn.{
  M, unknown, available, not_available, ◌>>=◌, ◌>>◌, return, modify, fault, fail_with, check_magic,
}
use libncftp.Conn.Errors.{
  k_no_err, k_err_bad_parameter, k_err_nlst_failed, k_err_nlst_with_file_not_available,
}
use libncftp.Reply.{add_line}
use libncftp.Commands.Batch.{delete}
use libncftp.Commands.Probe.{Readers}
use libncftp.Commands.Probe.Stat.{contains, says_missing, leave_to, last_line, to_start}

-- The listing of a name succeeds and its last line does not say that the file is missing.
abbrev pub lists : ℤ × List Bytes → Bool
lists (result, list) = int_eq result k_no_err && (elim (last_line list) [
  | none ↦ false
  | some l ↦
      not (says_missing l || contains (codes "o Such File") l || contains (codes "ot Found") l)
])

-- `cip->NLSTfileParamWorks = kCommandNotAvailable; cip->errNo = e; result = e;`
abbrev pub nlst_unusable : M ℤ
nlst_unusable = do
  modify (λ c. record c { nlst_file_param_works = not_available })
  fail_with k_err_nlst_with_file_not_available

-- "testfile.ftp", and what it says
abbrev pub test_file_name : Bytes
test_file_name = codes "testfile.ftp"

abbrev pub test_file_message : Bytes
test_file_message =
    codes "This file was created by an FTP client program using the LibNcFTP toolkit.  "
    ++ codes "A temporary file needed to be created to ensure that this directory was not empty, "
    ++ codes "so that the directory could be listed with the guarantee of at least one file in the "
    ++ codes
        "listing.\r\n\r\nYou may delete this file manually if your FTP client program does not "
    ++ codes "delete it for you.\r\n"

-- The listing of the last name in the starting directory, which may be the test file.
unfoldable pub try_nlst_existing : Readers → Bytes → Bool → Bytes → M (Option ℤ)
unfolding delete leave_to strncmp_eq
try_nlst_existing readers saved created l = do
  pair ← readers.net.list_to_memory l []
  (if created
      then delete readers.net (λ dir. fault) (some test_file_name) false false
      else return k_no_err)
  if lists pair
      then (do modify (λ c. record c { nlst_file_param_works = available }); leave_to saved none)
      else (do e ← nlst_unusable; leave_to saved (some e))

-- An empty listing: the test file is made. Its name is added to the list before, if memory is met.
unfoldable pub with_test_file : Readers → Bytes → M (Option ℤ)
unfolding try_nlst_existing add_line leave_to
with_test_file readers saved = do
  list ← (λ c. some (add_line [] test_file_name c))
  elim list [
    | [] ↦ do e ← nlst_unusable; leave_to saved (some e)
    | l ∷ _ ↦ do
      put ← readers.net.put_file_from_memory test_file_name test_file_message
      if int_eq put k_no_err
          then try_nlst_existing readers saved true l
          else (do e ← nlst_unusable; leave_to saved (some e))
  ]

unfoldable pub try_nlst : Readers → Bytes → M (Option ℤ)
unfolding with_test_file try_nlst_existing
try_nlst readers saved = do
  pair ← readers.net.list_to_memory [] []
  elim (if is_neg pair.0 then none else last_line pair.1) [
    | none ↦ with_test_file readers saved
    | some l ↦ try_nlst_existing readers saved false l
  ]

-- Whether NLST of a file can be used, if that is not known; none if it can.
unfoldable pub learn_nlst : Readers → Bytes → M (Option ℤ)
unfolding try_nlst to_start strncmp_eq
learn_nlst readers unwritten = do
  pair ← readers.net.list_to_memory (codes "NoSuchFile") []
  if lists pair
      then (do e ← nlst_unusable; return (some e))
      else to_start unwritten (try_nlst readers)

unfoldable pub nlst_file : Readers → Bytes → M ℤ
unfolding strncmp_eq
nlst_file readers file = do
  pair ← readers.net.list_to_memory file []
  if lists pair then return k_no_err else fail_with k_err_nlst_failed

-- FTPFileExistsNlst
unfoldable pub file_exists_nlst : Readers → Bytes → Option Bytes → M ℤ
unfolding learn_nlst nlst_file
file_exists_nlst readers unwritten none = check_magic (return k_err_bad_parameter)
file_exists_nlst readers unwritten (some file) = check_magic (λ c. elim c.nlst_file_param_works [
  | not_available ↦ fail_with k_err_nlst_with_file_not_available c
  | available ↦ nlst_file readers file c
  | unknown ↦
      (do
        e ← learn_nlst readers unwritten
        elim e [ some e ↦ return e | none ↦ nlst_file readers file ])
        c
])
