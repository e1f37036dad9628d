-- ===== src/Commands/Utime/Laws.antt =====
-- The ways in which FTPUtime sets a time, against servers that answer.
use libncftp.Base.{
  ℕ, Bool, true, false, not, ◌&&◌, ◌||◌, ◌∷◌, ◌++◌, Option, some, Bytes, codes, if◌then◌else◌, ◌==◌,
  ℤ, ◌≡◌, refl, Bool-cases, inl, inr,
}
use libncftp.Conn.{Conn, ◌>>=◌, return, fail_with, available, not_available}
use libncftp.Conn.Errors.{k_no_err, k_err_malloc_failed, k_err_utime_not_available}
use libncftp.Reply.Frame.{Reply, number_of}
use libncftp.Command.Exchange.{Answers, after_exchange, done_with_reply}
use libncftp.Commands.Names.Laws.{class_of}
use libncftp.Commands.Ask.{ask, unimplemented_cmd, syntax_error_in_parameters, ask_lem}
use libncftp.Commands.Facts.{is_not_available}
use libncftp.Commands.Utime.{
  gm_time_str, unset, or_now, is_available, settled, falls_back, site_utime, use_site_utime,
  use_mdtm_set, set_by_mdtm, set_by_site, set_by_mfmt, set_by_mff, utime,
}

-- FTP_UNIMPLEMENTED_CMD or FTP_SYNTAX_ERROR_IN_PARAMETERS
abbrev pub refuses : Reply → Bool
refuses r = unimplemented_cmd (number_of r) || syntax_error_in_parameters (number_of r)

-- What MDTM with a time leaves after the reply `r`.
pub time_set : Reply → Conn → Option (ℤ × Conn)
time_set r d =
    if class_of r == 2
    then some (k_no_err, record d { has_mdtm_set = available })
    else if refuses r || number_of r == 550
    then some (
      k_err_utime_not_available,
      record d { has_mdtm_set = not_available; err_no = k_err_utime_not_available },
    )
    else some (k_err_utime_not_available, record d { err_no = k_err_utime_not_available })

abbrev pub mdtm_set : Bytes → Bytes → Bytes
mdtm_set mstr file = codes "MDTM " ++ (mstr ++ (b' ' ∷ file))

set_by_mdtm_lem :
    (mstr file : Bytes) (c : Conn) (r : Reply)
    → Answers c (mdtm_set mstr file) r
    → is_not_available c.has_mdtm ≡ false
    → is_not_available c.has_mdtm_set ≡ false
    → (n : ℕ) × (set_by_mdtm mstr file c ≡ time_set r (after_exchange c (mdtm_set mstr file) r n))
unfolding set_by_mdtm use_mdtm_set time_set
set_by_mdtm_lem mstr file c r answers h1 h2 =
    let (n, e) =
      ask_lem c (mdtm_set mstr file) r (fail_with k_err_malloc_failed) use_mdtm_set answers in
    (
      n,
      rw (h1, h2, e)
          (elim (Bool-cases (class_of r == 2)) [
            | inl two ↦ rw (two, done_with_reply r) refl
            | inr other ↦ elim (Bool-cases (refuses r || number_of r == 550)) [
              | inl refused ↦ rw (other, refused, done_with_reply r) refl
              | inr answered ↦ rw (other, answered, done_with_reply r) refl
            ]
          ]),
    )

-- Where SITE UTIME is refused.
abbrev pub site_refused : Conn → Bytes → Reply → ℕ → Conn
site_refused c command r n = record (after_exchange c command r n) {
  has_site_utime = not_available;
  err_no = k_err_utime_not_available;
}

ask-site_refused :
    (c : Conn) (command file : Bytes) (r : Reply)
    → Answers c command r
    → (class_of r == 2) ≡ false
    → refuses r ≡ true
    → (n : ℕ) × (ask command
          (do e ← fail_with k_err_malloc_failed; return (settled e))
          (use_site_utime file)
          c
        ≡ some (falls_back, site_refused c command r n))
unfolding use_site_utime
ask-site_refused c command file r answers other refused =
    let (n, e) =
      ask_lem c command r (do e ← fail_with k_err_malloc_failed; return (settled e))
        (use_site_utime file) answers in
    (n, rw (e, other, refused, done_with_reply r) refl)

module _ (gm : ℤ → Option Bytes) (clock : ℤ) (file : Bytes) (actime modtime crtime : ℤ) (c : Conn)
    (site : Bytes)
    (site_is : site_utime
        (gm_time_str gm (or_now clock modtime))
        (gm_time_str gm (or_now clock actime))
        (gm_time_str gm (or_now clock crtime))
        file
      ≡ site)
    (r1 r2 : Reply) (no_mff : (is_available c.has_mff && not (unset crtime)) ≡ false)
    (no_mfmt : is_available c.has_mfmt ≡ false)
    (site_tried : is_not_available c.has_site_utime ≡ false)
    (mdtm_tried : is_not_available c.has_mdtm ≡ false)
    (mdtm_set_tried : is_not_available c.has_mdtm_set ≡ false) (a1 : Answers c site r1)
    (other : (class_of r1 == 2) ≡ false) (refused : refuses r1 ≡ true)
    (a2 : (n : ℕ)
      → Answers
          (site_refused c site r1 n)
          (mdtm_set (gm_time_str gm (or_now clock modtime)) file)
          r2) where
  -- Where MFF is not to be used and MFMT is not there, no other way is known to be refused, and the
  -- server refuses SITE UTIME with a reply of code 500, 501, 502 or 504: FTPUtime sends SITE UTIME,
  -- with the access, modification and creation times, and then MDTM with the modification time; times
  -- that are 0 or -1 are the clock's. It marks SITE UTIME as not available, and ends in kNoErr, with
  -- the setting MDTM marked as available, if the reply to it is of class 2; else in
  -- kErrUTIMENotAvailable, with the setting MDTM marked as not available for the codes 500, 501, 502,
  -- 504 and 550.
  pub utime_falls_back :
      (n m : ℕ) × (utime gm clock file actime modtime crtime c
        ≡ time_set r2 (
            after_exchange
              (site_refused c site r1 n)
              (mdtm_set (gm_time_str gm (or_now clock modtime)) file)
              r2
              m))
  unfolding utime set_by_mff set_by_mfmt set_by_site
  utime_falls_back =
      let (n, e) = ask-site_refused c site file r1 a1 other refused in
      let (m, f) =
        set_by_mdtm_lem (gm_time_str gm (or_now clock modtime)) file (site_refused c site r1 n) r2
          (a2 n) mdtm_tried mdtm_set_tried in
      (n, m, rw (a1.genuine, no_mff, no_mfmt, site_tried, site_is, e) f)
