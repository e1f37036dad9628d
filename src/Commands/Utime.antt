-- ===== src/Commands/Utime.antt =====
-- libncftp/c_utime.c.
--
-- `gm` is `Gmtime` with the formatting of its fields as YYYYMMDDhhmmss (`none` where Gmtime fails), and
-- `clock` is what `time` reads.
pub mod Laws
use libncftp.Base.{
  ℕ, Bool, true, false, not, ◌&&◌, ◌||◌, [], ◌∷◌, ◌++◌, Option, none, some, Bytes, codes,
  if◌then◌else◌, ◌==◌, ℤ, pos, neg, is_neg, int_eq, take, split_first,
}
use libncftp.Conn.{
  Conn, M, Availability, unknown, available, not_available, ◌>>=◌, return, fail_with, check_magic,
}
use libncftp.Conn.Errors.{
  k_no_err, k_err_malloc_failed, k_err_utime_failed, k_err_utime_not_available,
}
use libncftp.Reply.{Response}
use libncftp.Command.{ftp_cmd}
use libncftp.Commands.Ask.{ask, unimplemented_cmd, syntax_error_in_parameters}
use libncftp.Commands.Facts.{is_not_available}

-- GmTimeStr into an array of 64 bytes.
abbrev pub gm_time_str : (ℤ → Option Bytes) → ℤ → Bytes
gm_time_str gm t = elim (gm t) [ none ↦ [] | some s ↦ take 63 s ]

-- A time of 0 or -1 stands for the current time.
abbrev pub unset : ℤ → Bool
unset t = int_eq t (pos 0) || int_eq t (neg 1)

abbrev pub or_now : ℤ → ℤ → ℤ
or_now clock t = if unset t then clock else t

abbrev pub is_available : Availability → Bool
is_available available = true
is_available _ = false

-- `if ((result == 2) || (result == 0)) result = kNoErr;` else kErrUTIMEFailed.
abbrev pub settle : ℤ → M ℤ
settle result =
    if int_eq result (pos 2) || int_eq result (pos 0)
    then return k_no_err
    else fail_with k_err_utime_failed

-- What is left to do behind SITE UTIME.
pub data AfterSite : Type 0 where
  settled : ℤ → AfterSite
  falls_back workaround : AfterSite

-- kServerTypeNcFTPd
abbrev pub ncftpd : ℕ
ncftpd = 2

abbrev pub has_space : Bytes → Bool
has_space file = elim (split_first b' ' file) [ none ↦ false | some _ ↦ true ]

-- The reply to SITE UTIME.
unfoldable pub use_site_utime : Bytes → ℤ → Response → M AfterSite
use_site_utime file result rp c =
    if is_neg result
    then some (settled result, c)
    else if int_eq result (pos 2)
    then some (settled k_no_err, record c { has_site_utime = available })
    else if unimplemented_cmd rp.code || syntax_error_in_parameters rp.code
    then some (
      falls_back,
      record c { has_site_utime = not_available; err_no = k_err_utime_not_available },
    )
    else if (c.server_type == ncftpd) && has_space file
    then some (workaround, c)
    else some (settled k_err_utime_failed, record c { err_no = k_err_utime_failed })

-- The reply to MDTM with a time.
unfoldable pub use_mdtm_set : ℤ → Response → M ℤ
use_mdtm_set result rp c =
    if is_neg result
    then some (result, c)
    else if int_eq result (pos 2)
    then some (k_no_err, record c { has_mdtm_set = available })
    else if unimplemented_cmd rp.code || syntax_error_in_parameters rp.code || rp.code == 550
    then some (
      k_err_utime_not_available,
      record c { has_mdtm_set = not_available; err_no = k_err_utime_not_available },
    )
    else some (k_err_utime_not_available, record c { err_no = k_err_utime_not_available })

-- MDTM, the last way.
unfoldable pub set_by_mdtm : Bytes → Bytes → M ℤ
set_by_mdtm mstr file c =
    if is_not_available c.has_mdtm || is_not_available c.has_mdtm_set
    then fail_with k_err_utime_not_available c
    else ask (codes "MDTM " ++ (mstr ++ (b' ' ∷ file))) (fail_with k_err_malloc_failed) use_mdtm_set
        c

unfoldable pub after_site : Bytes → Bytes → AfterSite → M ℤ
after_site mstr file (settled result) = return result
after_site mstr file falls_back = set_by_mdtm mstr file
after_site mstr file workaround = do
  result ← ftp_cmd (codes "MDTM " ++ (mstr ++ (b' ' ∷ file)))
  settle result

abbrev pub site_utime : Bytes → Bytes → Bytes → Bytes → Bytes
site_utime mstr astr cstr file =
    codes "SITE UTIME "
    ++ (file ++ (b' ' ∷ (astr ++ (b' ' ∷ (mstr ++ (b' ' ∷ (cstr ++ codes " UTC")))))))

-- `result` is what the ways tried before left: kErrUTIMENotAvailable if none was.
unfoldable pub set_by_site : Bytes → Bytes → Bytes → Bytes → ℤ → M ℤ
set_by_site mstr astr cstr file result c =
    if is_not_available c.has_site_utime
    then (if int_eq result k_err_utime_not_available
        then set_by_mdtm mstr file c
        else some (result, c))
    else (do
      next ←
          ask (site_utime mstr astr cstr file)
            (do e ← fail_with k_err_malloc_failed; return (settled e)) (use_site_utime file)
      after_site mstr file next)
        c

unfoldable pub set_by_mfmt : Bytes → Bytes → Bytes → Bytes → ℤ → M ℤ
set_by_mfmt mstr astr cstr file result c =
    if is_available c.has_mfmt
    then (do result ← ftp_cmd (codes "MFMT " ++ (mstr ++ (b' ' ∷ file))); settle result) c
    else set_by_site mstr astr cstr file
        (if int_eq result k_no_err then k_err_utime_not_available else result) c

unfoldable pub set_by_mff : Bytes → Bytes → Bytes → Bytes → Bool → M ℤ
set_by_mff mstr astr cstr file want_to_set_cr_time c =
    if is_available c.has_mff && want_to_set_cr_time
    then (do
      result ←
          ftp_cmd (codes "MFF Modify=" ++ (mstr ++ (codes ";Create=" ++ (cstr ++ (b' ' ∷ file)))))
      if int_eq result (pos 2) || int_eq result (pos 0)
          then return k_no_err
          else (do e ← fail_with k_err_utime_failed; set_by_mfmt mstr astr cstr file e))
        c
    else set_by_mfmt mstr astr cstr file k_no_err c

-- FTPUtime
unfoldable pub utime : (ℤ → Option Bytes) → ℤ → Bytes → ℤ → ℤ → ℤ → M ℤ
unfolding set_by_mff set_by_mfmt set_by_site after_site set_by_mdtm
utime gm clock file actime modtime crtime = check_magic (
    set_by_mff (gm_time_str gm (or_now clock modtime)) (gm_time_str gm (or_now clock actime))
      (gm_time_str gm (or_now clock crtime)) file (not (unset crtime)))
