-- ===== src/Commands/Facts/Laws.antt =====
-- What the connection learns of a file, and of the server's features, from the replies.
use libncftp.Base.{
  ℕ, true, false, ◌++◌, Option, some, Bytes, codes, if◌then◌else◌, ◌==◌, ℤ, pos, strcmp_eq, ◌≡◌,
  refl, arith, Bool-cases, inl, inr, eq_self,
}
use libncftp.Conn.{Conn, available, not_available, library_magic}
use libncftp.Conn.Errors.{
  k_no_err, k_err_malloc_failed, k_err_size_failed, k_err_size_not_available, k_err_mdtm_failed,
  k_err_mdtm_not_available,
}
use libncftp.Reply.{empty_response}
use libncftp.Reply.Frame.{Reply, read_as, number_of}
use libncftp.Command.Exchange.{Answers, after_exchange, done_with_reply}
use libncftp.Commands.Names.Laws.{class_of}
use libncftp.Commands.Ask.{unimplemented_cmd, while_used, ask_lem}
use libncftp.Commands.TransferType.{set_transfer_type}
use libncftp.Commands.Directory.Cache.{texts_of_first}
use libncftp.Commands.Facts.{
  fail_valued, not_known, is_not_available, use_size, ask_size, size_of_type, file_size, use_mdtm,
  ask_mdtm, file_modification_time,
}

use_size_lem :
    (scan : Bytes → ℤ → ℤ) (r : Reply) (d : Conn)
    → use_size scan (pos (class_of r)) (read_as r empty_response) d ≡ (
        if class_of r == 2
        then some ((k_no_err, some (scan r.first not_known)), record d { has_size = available })
        else if unimplemented_cmd (number_of r)
        then some (
          (k_err_size_not_available, some not_known),
          record d { has_size = not_available; err_no = k_err_size_not_available },
        )
        else some ((k_err_size_failed, some not_known), record d { err_no = k_err_size_failed }))
unfolding use_size
use_size_lem scan r d = let (others, texts) = texts_of_first r in ground (arith, texts)

-- What FTPFileSize leaves after the reply `r`.
pub sized : (Bytes → ℤ → ℤ) → Reply → Conn → Option ((ℤ × Option ℤ) × Conn)
sized scan r d =
    if class_of r == 2
    then some ((k_no_err, some (scan r.first not_known)), record d { has_size = available })
    else if unimplemented_cmd (number_of r)
    then some (
      (k_err_size_not_available, some not_known),
      record d { has_size = not_available; err_no = k_err_size_not_available },
    )
    else some ((k_err_size_failed, some not_known), record d { err_no = k_err_size_failed })

module _ (scan : Bytes → ℤ → ℤ) (c : Conn) (file : Bytes) (r : Reply)
    (answers : Answers c (codes "SIZE " ++ file) r) where
  ask_size_lem :
      (n : ℕ) × (ask_size scan file c ≡ sized scan r (after_exchange c (codes "SIZE " ++ file) r n))
  unfolding ask_size sized
  ask_size_lem =
      let (n, e) =
        ask_lem c (codes "SIZE " ++ file) r (fail_valued k_err_malloc_failed (some not_known))
          (use_size scan) answers in
      let used = use_size_lem scan r (while_used c (codes "SIZE " ++ file) n) in
      (
        n,
        elim (Bool-cases (class_of r == 2)) [
          | inl two ↦ rw (e, used, two, done_with_reply r) refl
          | inr other ↦ elim (Bool-cases (unimplemented_cmd (number_of r))) [
            | inl refused ↦ rw (e, used, other, refused, done_with_reply r) refl
            | inr answered ↦ rw (e, used, other, answered, done_with_reply r) refl
          ]
        ],
      )

  -- The connection has the requested type already, SIZE is not known to be refused, and the server
  -- answers SIZE with the reply `r`: FTPFileSize sends this one command. A reply of class 2 gives
  -- kNoErr and the size that `sscanf` reads in its first line, and marks SIZE as available; the codes
  -- 500, 502 and 504 mark it as not available; any other reply is kErrSIZEFailed. In both failures the
  -- size is kSizeUnknown.
  pub file_size_lem :
      is_not_available c.has_size ≡ false
      → (n : ℕ) × (file_size scan (some file) true c.cur_transfer_type c
          ≡ sized scan r (after_exchange c (codes "SIZE " ++ file) r n))
  unfolding file_size size_of_type set_transfer_type
  file_size_lem not_refused =
      let (n, e) = ask_size_lem in
      (n, rw (answers.genuine, eq_self c.cur_transfer_type, not_refused) e)

-- Once the server is known to refuse SIZE and MDTM, FTPFileSize of the connection's own type and
-- FTPFileModificationTime give the error for it, and an unknown value, without any traffic. The
-- magic of the block is the library's.
pub no_traffic_when_refused :
    (scan : Bytes → ℤ → ℤ) (date : Bytes → ℤ) (file : Bytes) (c : Conn)
    → strcmp_eq c.magic library_magic ≡ true
    → is_not_available c.has_size ≡ true
    → is_not_available c.has_mdtm ≡ true
    → (file_size scan (some file) true c.cur_transfer_type c
        ≡ some (
          (k_err_size_not_available, some not_known),
          record c { err_no = k_err_size_not_available },
        ))
      × (file_modification_time date (some file) true c
          ≡ some (
            (k_err_mdtm_not_available, some not_known),
            record c { err_no = k_err_mdtm_not_available },
          ))
unfolding file_size size_of_type set_transfer_type file_modification_time ask_mdtm
no_traffic_when_refused scan date file c magic size mdtm =
    (rw (magic, eq_self c.cur_transfer_type, size) refl, rw (magic, mdtm) refl)

use_mdtm_lem :
    (date : Bytes → ℤ) (r : Reply) (d : Conn)
    → use_mdtm date (pos (class_of r)) (read_as r empty_response) d ≡ (
        if class_of r == 2
        then some ((k_no_err, some (date r.first)), record d { has_mdtm = available })
        else if unimplemented_cmd (number_of r)
        then some (
          (k_err_mdtm_not_available, some not_known),
          record d {
            has_mdtm = not_available;
            has_mdtm_set = not_available;
            err_no = k_err_mdtm_not_available;
          },
        )
        else some ((k_err_mdtm_failed, some not_known), record d { err_no = k_err_mdtm_failed }))
unfolding use_mdtm
use_mdtm_lem date r d = let (others, texts) = texts_of_first r in ground (arith, texts)

-- What FTPFileModificationTime leaves after the reply `r`.
pub dated : (Bytes → ℤ) → Reply → Conn → Option ((ℤ × Option ℤ) × Conn)
dated date r d =
    if class_of r == 2
    then some ((k_no_err, some (date r.first)), record d { has_mdtm = available })
    else if unimplemented_cmd (number_of r)
    then some (
      (k_err_mdtm_not_available, some not_known),
      record d {
        has_mdtm = not_available;
        has_mdtm_set = not_available;
        err_no = k_err_mdtm_not_available;
      },
    )
    else some ((k_err_mdtm_failed, some not_known), record d { err_no = k_err_mdtm_failed })

module _ (date : Bytes → ℤ) (c : Conn) (file : Bytes) (r : Reply)
    (answers : Answers c (codes "MDTM " ++ file) r) where
  -- MDTM is not known to be refused, and the server answers it with the reply `r`:
  -- FTPFileModificationTime sends this one command. A reply of class 2 gives kNoErr and the date that
  -- UnMDTMDate reads in its first line, and marks MDTM as available; the codes 500, 502 and 504 mark
  -- MDTM, and its use to set a date, as not available; any other reply is kErrMDTMFailed. In both
  -- failures the date is kModTimeUnknown.
  pub file_modification_time_lem :
      is_not_available c.has_mdtm ≡ false
      → (n : ℕ) × (file_modification_time date (some file) true c
          ≡ dated date r (after_exchange c (codes "MDTM " ++ file) r n))
  unfolding file_modification_time ask_mdtm dated
  file_modification_time_lem not_refused =
      let (n, e) =
        ask_lem c (codes "MDTM " ++ file) r (fail_valued k_err_malloc_failed (some not_known))
          (use_mdtm date) answers in
      let used = use_mdtm_lem date r (while_used c (codes "MDTM " ++ file) n) in
      (
        n,
        rw (answers.genuine, not_refused)
            (elim (Bool-cases (class_of r == 2)) [
              | inl two ↦ rw (e, used, two, done_with_reply r) refl
              | inr other ↦ elim (Bool-cases (unimplemented_cmd (number_of r))) [
                | inl refused ↦ rw (e, used, other, refused, done_with_reply r) refl
                | inr answered ↦ rw (e, used, other, answered, done_with_reply r) refl
              ]
            ]),
      )
