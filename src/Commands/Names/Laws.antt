-- ===== src/Commands/Names/Laws.antt =====
-- FTPRename as an exchange of two commands, FTPUmask and FTPSymlink as one of one.
use libncftp.Base.{
  ℕ, ℤ, Option, ◌-◌, ◌∷◌, ◌++◌, some, Bytes, codes, if◌then◌else◌, ◌==◌, ◌≡◌, arith,
}
use libncftp.Conn.{Conn}
use libncftp.Conn.Errors.{k_no_err, k_err_rename_failed, k_err_umask_failed, k_err_symlink_failed}
use libncftp.Reply.Frame.{Reply}
use libncftp.Command.Exchange.{Answers, after_exchange, ftp_cmd-Answers}
use libncftp.Commands.Names.{rename, umask, symlink}

abbrev pub class_of : Reply → ℕ
class_of r = r.d1 - b'0'

module _ (c : Conn) (b : ℕ) (oldname newname : Bytes) (r1 r2 : Reply)
    (a1 : Answers c (codes "RNFR " ++ (b ∷ oldname)) r1)
    (a2 : (n : ℕ)
      → Answers
          (after_exchange c (codes "RNFR " ++ (b ∷ oldname)) r1 n)
          (codes "RNTO " ++ newname)
          r2) where
  -- Against a server that answers both commands, FTPRename sends RNTO, behind RNFR, only if the reply
  -- to RNFR is of class 3, and it returns kNoErr exactly if then the reply to RNTO is of class 2;
  -- else it returns and stores kErrRenameFailed. The new name may be any text, the empty one too.
  pub rename_lem :
      (n m : ℕ) × (rename (some (b ∷ oldname)) (some newname) c ≡ (
        let c1 = after_exchange c (codes "RNFR " ++ (b ∷ oldname)) r1 n in
        let c2 = after_exchange c1 (codes "RNTO " ++ newname) r2 m in
        if class_of r1 == 3
        then (if class_of r2 == 2
            then some (k_no_err, c2)
            else some (k_err_rename_failed, record c2 { err_no = k_err_rename_failed }))
        else some (k_err_rename_failed, record c1 { err_no = k_err_rename_failed })))
  unfolding rename
  rename_lem =
      let (n, e1) = ftp_cmd-Answers c (codes "RNFR " ++ (b ∷ oldname)) r1 a1 in
      let c1 = after_exchange c (codes "RNFR " ++ (b ∷ oldname)) r1 n in
      let (m, e2) = ftp_cmd-Answers c1 (codes "RNTO " ++ newname) r2 (a2 n) in
      (n, m, ground (arith, e1, e2, a1.genuine))

-- A command that must be answered by class 2.
abbrev pub accepted : Reply → ℤ → Conn → Option (ℤ × Conn)
accepted r e d = if class_of r == 2 then some (k_no_err, d) else some (e, record d { err_no = e })

module _ (c : Conn) (u a b : ℕ) (umsk lfrom lto : Bytes) (r1 r2 : Reply)
    (a1 : Answers c (codes "SITE UMASK " ++ (u ∷ umsk)) r1)
    (a2 : Answers c (codes "SITE SYMLINK " ++ ((a ∷ lfrom) ++ (b' ' ∷ b ∷ lto))) r2) where
  -- Against a server that answers, FTPUmask, on a mask that is not empty, and FTPSymlink, on two names
  -- that are not, send their one command, the old name before the new, and return kNoErr exactly if
  -- the reply is of class 2; else they return and store kErrUmaskFailed, or kErrSYMLINKFailed.
  pub one_command_lem :
      (n m : ℕ) × (umask (some (u ∷ umsk)) c
        ≡ accepted r1 k_err_umask_failed
            (after_exchange c (codes "SITE UMASK " ++ (u ∷ umsk)) r1 n))
      × (symlink (some (a ∷ lfrom)) (some (b ∷ lto)) c
          ≡ accepted r2 k_err_symlink_failed
              (after_exchange c (codes "SITE SYMLINK " ++ ((a ∷ lfrom) ++ (b' ' ∷ b ∷ lto))) r2 m))
  unfolding umask symlink
  one_command_lem =
      let (n, e1) = ftp_cmd-Answers c (codes "SITE UMASK " ++ (u ∷ umsk)) r1 a1 in
      let (m, e2) =
        ftp_cmd-Answers c (codes "SITE SYMLINK " ++ ((a ∷ lfrom) ++ (b' ' ∷ b ∷ lto))) r2 a2 in
      (n, m, ground (arith, e1, a1.genuine), ground (arith, e2, a1.genuine))
