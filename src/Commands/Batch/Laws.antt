-- ===== src/Commands/Batch/Laws.antt =====
-- A batch of names against a server that answers every command.
use libncftp.Base.{
  ℕ, Bool, true, false, [], ◌∷◌, ◌++◌, List, Option, some, Bytes, codes, if◌then◌else◌, ℤ, pos,
  is_neg, int_eq, ◌==◌, ◌≡◌, refl, sym, Bool-cases, inl, inr, append_assoc, append-nil, strcmp_eq,
  ◌∙◌,
}
use libncftp.Conn.{library_magic, Conn, M, ◌>>=◌, return}
use libncftp.Conn.Errors.{k_no_err, k_err_chmod_failed, k_err_dele_failed, k_err_rmd_failed}
use libncftp.Reply.Frame.{Reply}
use libncftp.Command.{ftp_cmd}
use libncftp.Command.Framing.{crlf}
use libncftp.Command.Exchange.{Answers, after_exchange, ftp_cmd-Answers}
use libncftp.Commands.Names.Laws.{class_of}
use libncftp.Commands.Glob.{DataConnection, remote_glob}
use libncftp.Commands.Batch.{
  over_names, chmod, delete, rmdir, Once, fine, broken, for_each, note, chmod_once, dele_once,
  rmd_once,
}

-- One command for a name that must be answered by class 2; `e` is noted otherwise.
abbrev pub each_once : (Bytes → Bytes) → ℤ → Bytes → M Once
each_once command e file = do
  once ← ftp_cmd (command file)
  if is_neg once then return (broken once) else if int_eq once (pos 2) then return fine else note e

-- The connection after one name.
abbrev pub after_once : (Bytes → Bytes) → ℤ → Conn → Bytes → Reply → ℕ → Conn
after_once command e c file r n =
    if class_of r == 2
    then after_exchange c (command file) r n
    else record (after_exchange c (command file) r n) { err_no = e }

-- The server answers the command for each name with the reply that stands beside it.
abbrev pub AnswersAll : (Bytes → Bytes) → ℤ → Conn → List (Bytes × Reply) → Type 0
AnswersAll command e c [] = Unit
AnswersAll command e c ((file, r) ∷ rest) =
    Answers c (command file) r
    × ((n : ℕ) → AnswersAll command e (after_once command e c file r n) rest)

abbrev pub names_of : List (Bytes × Reply) → List Bytes
names_of [] = []
names_of ((file, r) ∷ rest) = file ∷ names_of rest

-- The lines that are written for the names.
abbrev pub lines_of : (Bytes → Bytes) → List (Bytes × Reply) → List Bytes
lines_of command [] = []
lines_of command ((file, r) ∷ rest) = (command file ++ crlf) ∷ lines_of command rest

-- kNoErr if all are accepted.
abbrev pub verdict : ℤ → ℤ → List (Bytes × Reply) → ℤ
verdict e so_far [] = so_far
verdict e so_far ((file, r) ∷ rest) = verdict e (if class_of r == 2 then so_far else e) rest

for_each-AnswersAll :
    (command : Bytes → Bytes) (e so_far : ℤ) (batch : List (Bytes × Reply)) (c : Conn)
    → AnswersAll command e c batch
    → (d : Conn) × (for_each (each_once command e) so_far (names_of batch) c
        ≡ some (verdict e so_far batch, d))
      × (d.sent ≡ c.sent ++ lines_of command batch)
unfolding for_each
for_each-AnswersAll command e so_far [] c a = (c, refl, sym (append-nil c.sent))
for_each-AnswersAll command e so_far ((file, r) ∷ rest) c (a, more) =
    let (n, said) = ftp_cmd-Answers c (command file) r a in
    elim (Bool-cases (class_of r == 2)) [
      | inl two ↦
          let next = rw two at more n in
          let (d, ran, sent) =
            for_each-AnswersAll command e so_far rest (after_exchange c (command file) r n) next in
          (d, rw (said, two) ran, rw sent (append_assoc c.sent _ _))
      | inr other ↦
          let next = rw other at more n in
          let (d, ran, sent) =
            for_each-AnswersAll command e e rest
              (record (after_exchange c (command file) r n) { err_no = e }) next in
          (d, rw (said, other) ran, rw sent (append_assoc c.sent _ _))
    ]

-- The three batches, without recursion.
pub data Batch : Type 0 where
  chmod_batch : Bytes → Batch
  dele_batch rmd_batch : Batch

abbrev pub command_of : Batch → Bytes → Bytes
command_of (chmod_batch mode) file = codes "SITE CHMOD " ++ mode ++ (b' ' ∷ file)
command_of dele_batch file = codes "DELE " ++ file
command_of rmd_batch file = codes "RMD " ++ file

abbrev pub error_of : Batch → ℤ
error_of (chmod_batch mode) = k_err_chmod_failed
error_of dele_batch = k_err_dele_failed
error_of rmd_batch = k_err_rmd_failed

-- What FTPChmod, FTPDelete and FTPRmdir do with each name, where they do not recur.
abbrev pub each_of : (Bytes → M ℤ) → Batch → Bytes → M Once
each_of remove_tree (chmod_batch mode) = chmod_once mode
each_of remove_tree dele_batch = dele_once remove_tree false
each_of remove_tree rmd_batch = rmd_once remove_tree false

for_each_lem :
    (remove_tree : Bytes → M ℤ) (b : Batch) (batch : List (Bytes × Reply)) (c : Conn)
    → AnswersAll (command_of b) (error_of b) c batch
    → (d : Conn) × (for_each (each_of remove_tree b) k_no_err (names_of batch) c
        ≡ some (verdict (error_of b) k_no_err batch, d))
      × (d.sent ≡ c.sent ++ lines_of (command_of b) batch)
unfolding chmod_once dele_once rmd_once
for_each_lem remove_tree (chmod_batch mode) batch c a =
    for_each-AnswersAll (command_of (chmod_batch mode)) k_err_chmod_failed k_no_err batch c a
for_each_lem remove_tree dele_batch batch c a =
    for_each-AnswersAll (command_of dele_batch) k_err_dele_failed k_no_err batch c a
for_each_lem remove_tree rmd_batch batch c a =
    for_each-AnswersAll (command_of rmd_batch) k_err_rmd_failed k_no_err batch c a

-- FTPChmod, FTPDelete and FTPRmdir, the last two without recursion.
abbrev pub run_batch : DataConnection → (Bytes → M ℤ) → Batch → Option Bytes → Bool → M ℤ
run_batch net remove_tree (chmod_batch mode) pattern do_glob = chmod net pattern mode do_glob
run_batch net remove_tree dele_batch pattern do_glob = delete net remove_tree pattern false do_glob
run_batch net remove_tree rmd_batch pattern do_glob = rmdir net remove_tree pattern false do_glob

over_names_lem :
    (net : DataConnection) (pattern : Option Bytes) (do_glob : Bool) (each : Bytes → M Once)
    (names : List Bytes) (c d : Conn)
    → strcmp_eq c.magic library_magic ≡ true
    → remote_glob net pattern do_glob c ≡ some ((k_no_err, names), d)
    → over_names net pattern do_glob each c ≡ for_each each k_no_err names d
unfolding over_names
over_names_lem net pattern do_glob each names c d genuine found = rw (genuine, found) refl

-- FTPChmod, FTPDelete without recursion and FTPRmdir without recursion, on the library's own block, where
-- FTPRemoteGlob finds the names of a list and the server answers the command for each of them: they
-- write one command for each name, in the list's order, and no other line behind those of
-- FTPRemoteGlob, and go on behind a refusal; the result is kNoErr if every reply is of class 2, and
-- else the error of the command.
pub run_batch_lem :
    (net : DataConnection) (remove_tree : Bytes → M ℤ) (b : Batch) (pattern : Option Bytes)
    (do_glob : Bool) (batch : List (Bytes × Reply)) (c c1 : Conn)
    → strcmp_eq c.magic library_magic ≡ true
    → remote_glob net pattern do_glob c ≡ some ((k_no_err, names_of batch), c1)
    → AnswersAll (command_of b) (error_of b) c1 batch
    → (d : Conn) × (run_batch net remove_tree b pattern do_glob c
        ≡ some (verdict (error_of b) k_no_err batch, d))
      × (d.sent ≡ c1.sent ++ lines_of (command_of b) batch)
unfolding chmod delete rmdir
run_batch_lem net remove_tree (chmod_batch mode) pattern do_glob batch c c1 genuine found a =
    let (d, e, sent) = for_each_lem remove_tree (chmod_batch mode) batch c1 a in
    (d, over_names_lem net pattern do_glob _ _ c c1 genuine found ∙ e, sent)
run_batch_lem net remove_tree dele_batch pattern do_glob batch c c1 genuine found a =
    let (d, e, sent) = for_each_lem remove_tree dele_batch batch c1 a in
    (d, over_names_lem net pattern do_glob _ _ c c1 genuine found ∙ e, sent)
run_batch_lem net remove_tree rmd_batch pattern do_glob batch c c1 genuine found a =
    let (d, e, sent) = for_each_lem remove_tree rmd_batch batch c1 a in
    (d, over_names_lem net pattern do_glob _ _ c c1 genuine found ∙ e, sent)
