-- ===== src/Tests/Commands.antt =====
-- The commands on concrete connections.
use libncftp.Base.{
  ℕ, true, [], Option, some, Bytes, codes, ℤ, pos, neg, ◌≡◌, refl, arith, length, replicate,
  if◌then◌else◌, ◌==◌, cstr, strcmp_eq, split_first, split_last,
}
use libncftp.Conn.{Conn}
use libncftp.Conn.Errors.{k_no_err, k_err_rename_failed}
use libncftp.Reply.Frame.{Reply, wire_reply}
use libncftp.Command.{strip_eol}
use libncftp.Command.Framing.{Sendable}
use libncftp.Command.Exchange.{Answers, after_exchange}
use libncftp.Commands.Names.{rename}
use libncftp.Commands.Names.Laws.{class_of, rename_lem}
use libncftp.Commands.Directory.{array, get_cwd, chdir, pwd_text}
use libncftp.Commands.Directory.Cache.{DirectoryChanged, chdir-DirectoryChanged, get_cwd_lem}
use libncftp.Commands.Facts.{file_size}
use libncftp.Commands.Facts.Laws.{sized, file_size_lem}
use libncftp.Commands.Utime.{utime, site_utime}
use libncftp.Commands.Utime.Laws.{site_refused, time_set, utime_falls_back}
use libncftp.Tests.{
  eight-StackEnds, conn_to, conn_giving, answers, done, proceed, refusal, directory, done-IsReply,
  proceed-IsReply, refusal-IsReply, directory-IsReply,
}

rnfr-Sendable : Sendable (codes "RNFR a")
unfolding strip_eol
rnfr-Sendable = record { fits = ground arith; no_eol = refl }

rnto-Sendable : Sendable (codes "RNTO ")
unfolding strip_eol
rnto-Sendable = record { fits = ground arith; no_eol = refl }

pwd-Sendable : Sendable (codes "PWD")
unfolding strip_eol
pwd-Sendable = record { fits = ground arith; no_eol = refl }

size-Sendable : Sendable (codes "SIZE f")
unfolding strip_eol
size-Sendable = record { fits = ground arith; no_eol = refl }

-- The reply `first` to the first line, then `second`.
abbrev conn_of_two : Reply → Reply → Conn
conn_of_two first second =
    conn_to (λ lines. if length lines == 1 then wire_reply first else wire_reply second)

first-Answers :
    (first second : Reply) (command : Bytes)
    → Answers (conn_giving first) command first
    → Answers (conn_of_two first second) command first
unfolding strcmp_eq
first-Answers first second command a = record {
  genuine = refl;
  is_open = refl;
  memory = λ n. refl;
  timely = refl;
  drained = refl;
  sendable = a.sendable;
  writes = refl;
  reply = refl;
  well = a.well;
  stays = a.stays;
}

rename_second :
    (n : ℕ)
    → Answers
        (after_exchange (conn_of_two proceed done) (codes "RNFR a") proceed n)
        (codes "RNTO ")
        done
unfolding strcmp_eq
rename_second n = record {
  genuine = refl;
  is_open = refl;
  memory = λ n. refl;
  timely = refl;
  drained = refl;
  sendable = rnto-Sendable;
  writes = refl;
  reply = refl;
  well = done-IsReply;
  stays = ground arith;
}

-- The new name is empty.
rename_lem_example :
    (n m : ℕ) × (rename (some (codes "a")) (some []) (conn_of_two proceed done) ≡ (
      let c1 = after_exchange (conn_of_two proceed done) (codes "RNFR a") proceed n in
      let c2 = after_exchange c1 (codes "RNTO ") done m in
      if class_of proceed == 3
      then (if class_of done == 2
          then some (k_no_err, c2)
          else some (k_err_rename_failed, record c2 { err_no = k_err_rename_failed }))
      else some (k_err_rename_failed, record c1 { err_no = k_err_rename_failed })))
rename_lem_example =
    rename_lem (conn_of_two proceed done) b'a' [] [] proceed done
      (first-Answers proceed done (codes "RNFR a")
        (answers (codes "RNFR a") proceed proceed-IsReply (ground arith) rnfr-Sendable))
      rename_second

genuine : (r : Reply) → strcmp_eq (conn_giving r).magic (codes "LibNcFTP 3.2.6") ≡ true
unfolding strcmp_eq
genuine r = refl

chdir-DirectoryChanged_example :
    DirectoryChanged (conn_giving done) (chdir (some (codes "/pub")) (conn_giving done))
chdir-DirectoryChanged_example =
    chdir-DirectoryChanged b'/' (codes "pub") (conn_giving done) (genuine done) eight-StackEnds

quoted_directory : pwd_text directory.first ≡ some (codes "/pub")
unfolding pwd_text split_first split_last
quoted_directory = refl

abbrev at_directory : ℕ → Bytes → Conn
at_directory n b = record (after_exchange (conn_giving directory) (codes "PWD") directory n) {
  cwd = some b;
}

get_cwd_lem_example :
    (n : ℕ) × (out : Bytes) × (b' : Bytes) × (cstr out ≡ codes "/pub")
    × (get_cwd (array (replicate 9 1)) (conn_giving directory)
        ≡ some ((k_no_err, out), at_directory n b'))
    × ((out' : Bytes) × (cstr out' ≡ codes "/pub")
        × (get_cwd (array (replicate 7 1)) (at_directory n b')
            ≡ some ((k_no_err, out'), at_directory n b')))
get_cwd_lem_example =
    get_cwd_lem (conn_giving directory) directory (replicate 9 1) (replicate 12 0) (codes "/pub")
      (answers (codes "PWD") directory directory-IsReply (ground arith) pwd-Sendable) refl
      quoted_directory (ground arith) (ground arith) refl refl (ground arith) (ground arith)
      (replicate 7 1) (ground arith)

-- In place of `sscanf` and UnMDTMDate: the number of characters.
abbrev scan_length : Bytes → ℤ → ℤ
scan_length text old = pos (length text)

file_size_lem_example :
    (n : ℕ) × (file_size scan_length (some (codes "f")) true b'I' (conn_giving done)
      ≡ sized scan_length done (after_exchange (conn_giving done) (codes "SIZE f") done n))
file_size_lem_example =
    file_size_lem scan_length (conn_giving done) (codes "f") done
      (answers (codes "SIZE f") done done-IsReply (ground arith) size-Sendable) refl

-- In place of Gmtime: one date.
abbrev one_date : ℤ → Option Bytes
one_date t = some (codes "19700101000000")

abbrev site_line : Bytes
site_line =
    site_utime (codes "19700101000000") (codes "19700101000000") (codes "19700101000000")
      (codes "f")

abbrev mdtm_line : Bytes
mdtm_line = codes "MDTM 19700101000000 f"

site-Sendable : Sendable site_line
unfolding strip_eol
site-Sendable = record { fits = ground arith; no_eol = refl }

mdtm_line-Sendable : Sendable mdtm_line
unfolding strip_eol
mdtm_line-Sendable = record { fits = ground arith; no_eol = refl }

utime_second :
    (n : ℕ) → Answers (site_refused (conn_of_two refusal done) site_line refusal n) mdtm_line done
unfolding strcmp_eq
utime_second n = record {
  genuine = refl;
  is_open = refl;
  memory = λ n. refl;
  timely = refl;
  drained = refl;
  sendable = mdtm_line-Sendable;
  writes = refl;
  reply = refl;
  well = done-IsReply;
  stays = ground arith;
}

utime_falls_back_example :
    (n m : ℕ) × (utime one_date
        (pos 5)
        (codes "f")
        (pos 0)
        (pos 7)
        (neg 1)
        (conn_of_two refusal done)
      ≡ time_set done (
          after_exchange
            (site_refused (conn_of_two refusal done) site_line refusal n)
            mdtm_line
            done
            m))
utime_falls_back_example =
    utime_falls_back one_date (pos 5) (codes "f") (pos 0) (pos 7) (neg 1) (conn_of_two refusal done)
      site_line refl refusal done refl refl refl refl refl
      (first-Answers refusal done site_line
        (answers site_line refusal refusal-IsReply (ground arith) site-Sendable))
      refl refl utime_second
