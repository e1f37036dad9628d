-- ===== src/Commands/Facts.antt =====
-- libncftp/c_size.c, c_modtime.c and c_rhelp.c: what the server knows of a file, and its help.
--
-- `sscanf` of a size and UnMDTMDate's reading of a date are arguments: from the text, and for the size
-- what the variable holds before, the value it holds after. The value goes with the result; `none` is
-- a variable that is not written.
pub mod Laws
use libncftp.Base.{
  ℕ, Bool, true, false, [], ◌∷◌, ◌++◌, List, Option, none, some, Bytes, codes, if◌then◌else◌, ℤ,
  pos, neg, is_neg, int_eq, strcmp_eq,
}
use libncftp.Conn.{
  Conn, M, Availability, unknown, available, not_available, ◌>>=◌, ◌>>◌, return, modify, fault,
  fail_with, library_magic,
}
use libncftp.Conn.Errors.{
  k_no_err, k_err_bad_magic, k_err_bad_parameter, k_err_malloc_failed, k_err_size_failed,
  k_err_size_not_available, k_err_mdtm_failed, k_err_mdtm_not_available, k_err_help_failed,
}
use libncftp.Reply.{Response, add_line}
use libncftp.Commands.Ask.{ask, unimplemented_cmd}
use libncftp.Commands.TransferType.{set_transfer_type}

-- kSizeUnknown and kModTimeUnknown
abbrev pub not_known : ℤ
not_known = neg 1

abbrev pub is_not_available : Availability → Bool
is_not_available not_available = true
is_not_available _ = false

-- `cip->errNo = e; result = e;` where a value goes with the result.
abbrev pub fail_valued : {A : Type 0} → ℤ → A → M (ℤ × A)
fail_valued e value = do e ← fail_with e; return (e, value)

-- The reply to SIZE. A reply of class 2 with no line is read through NULL.
unfoldable pub use_size : (Bytes → ℤ → ℤ) → ℤ → Response → M (ℤ × Option ℤ)
use_size scan result rp =
    if is_neg result
    then return (result, some not_known)
    else if int_eq result (pos 2)
    then (elim rp.msg [
      | [] ↦ fault
      | first ∷ _ ↦
          λ c. some ((k_no_err, some (scan first not_known)), record c { has_size = available })
    ])
    else if unimplemented_cmd rp.code
    then (λ c. some (
      (k_err_size_not_available, some not_known),
      record c { has_size = not_available; err_no = k_err_size_not_available },
    ))
    else fail_valued k_err_size_failed (some not_known)

unfoldable pub ask_size : (Bytes → ℤ → ℤ) → Bytes → M (ℤ × Option ℤ)
ask_size scan file =
    ask (codes "SIZE " ++ file) (fail_valued k_err_malloc_failed (some not_known)) (use_size scan)

-- FTPFileSize, for a file and a variable that are not NULL.
unfoldable pub size_of_type : (Bytes → ℤ → ℤ) → Bytes → ℕ → M (ℤ × Option ℤ)
size_of_type scan file type = do
  result ← set_transfer_type type
  if is_neg result then return (result, some not_known) else λ c.
      if is_not_available c.has_size
      then fail_valued k_err_size_not_available (some not_known) c
      else ask_size scan file c

-- FTPFileSize; `wanted` tells whether `size` is not NULL.
unfoldable pub file_size : (Bytes → ℤ → ℤ) → Option Bytes → Bool → ℕ → M (ℤ × Option ℤ)
unfolding ask_size size_of_type
file_size scan none wanted type c =
    some
      ((if strcmp_eq c.magic library_magic then k_err_bad_parameter else k_err_bad_magic, none), c)
file_size scan (some file) wanted type c =
    if strcmp_eq c.magic library_magic
    then (if wanted then size_of_type scan file type c else some ((k_err_bad_parameter, none), c))
    else some ((k_err_bad_magic, none), c)

-- The reply to MDTM.
unfoldable pub use_mdtm : (Bytes → ℤ) → ℤ → Response → M (ℤ × Option ℤ)
use_mdtm un_mdtm_date result rp =
    if is_neg result
    then return (result, some not_known)
    else if int_eq result (pos 2)
    then (elim rp.msg [
      | [] ↦ fault
      | first ∷ _ ↦
          λ c. some ((k_no_err, some (un_mdtm_date first)), record c { has_mdtm = available })
    ])
    else if unimplemented_cmd rp.code
    then (λ c. some (
      (k_err_mdtm_not_available, some not_known),
      record c {
        has_mdtm = not_available;
        has_mdtm_set = not_available;
        err_no = k_err_mdtm_not_available;
      },
    ))
    else fail_valued k_err_mdtm_failed (some not_known)

unfoldable pub ask_mdtm : (Bytes → ℤ) → Bytes → M (ℤ × Option ℤ)
ask_mdtm un_mdtm_date file c =
    if is_not_available c.has_mdtm
    then fail_valued k_err_mdtm_not_available (some not_known) c
    else ask (codes "MDTM " ++ file) (fail_valued k_err_malloc_failed (some not_known))
        (use_mdtm un_mdtm_date) c

-- FTPFileModificationTime; `wanted` tells whether `mdtm` is not NULL.
unfoldable pub file_modification_time : (Bytes → ℤ) → Option Bytes → Bool → M (ℤ × Option ℤ)
unfolding ask_mdtm
file_modification_time un_mdtm_date none wanted c =
    some
      ((if strcmp_eq c.magic library_magic then k_err_bad_parameter else k_err_bad_magic, none), c)
file_modification_time un_mdtm_date (some file) wanted c =
    if strcmp_eq c.magic library_magic
    then (if wanted then ask_mdtm un_mdtm_date file c else some ((k_err_bad_parameter, none), c))
    else some ((k_err_bad_magic, none), c)
