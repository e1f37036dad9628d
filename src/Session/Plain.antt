-- ===== src/Session/Plain.antt =====
-- The commands of one exchange or two, in a session.
use libncftp.Base.{
  ℕ, [], ◌∷◌, ◌++◌, Option, none, some, Bytes, codes, if◌then◌else◌, ℤ, pos, negsuc, int_eq,
  length-set, refl, arith, Bool-cases, inl, inr, ◌==◌,
}
use libncftp.Conn.{Conn, return, fail_with}
use libncftp.Conn.Errors.{k_no_err}
use libncftp.Commands.Names.{rename_steps, rename, umask, symlink}
use libncftp.Commands.TransferType.{send_type, set_transfer_type, canonical_type}
use libncftp.Commands.Directory.{invalidate, cd_command, chdir_result, chdir}
use libncftp.Session.Ready.{
  Ready, Safe, ran, Runs, Settled, Safe-if, Safe-choice, Runs-fail_with, Runs-check_magic,
  ftp_cmd-Runs, Sized, Present,
}

Sized-invalidate : (b : Option Bytes) → Sized b → Sized (invalidate b)
Sized-invalidate none h = tt
Sized-invalidate (some b) h = omega (arith, length-set b 0 0)

Present-invalidate : (b : Option Bytes) → Present b → Present (invalidate b)
Present-invalidate none h = h
Present-invalidate (some b) h = tt

pub Ready-forget_cwd : (c : Conn) → Ready c → Ready (record c { cwd = invalidate c.cwd })
Ready-forget_cwd c r = record {
  genuine = r.genuine;
  memory = r.memory;
  stack = r.stack;
  present = λ h. Present-invalidate c.cwd (r.present h);
  sized = Sized-invalidate c.cwd r.sized;
  roomy = r.roomy;
}

pub chdir_result-Runs : (result : ℤ) → Runs Settled (chdir_result result)
unfolding chdir_result
chdir_result-Runs (pos n) c r = elim (Bool-cases (n == 2)) [
  | inl e ↦ rw e (ran k_no_err _ refl (Ready-forget_cwd c r) refl)
  | inr e ↦ rw e (ran _ (record c { err_no = _ }) tt r refl)
]
chdir_result-Runs (negsuc n) c r = ran (negsuc n) c tt r refl

pub chdir-Runs : (dir : Option Bytes) → Runs Settled (chdir dir)
unfolding chdir
chdir-Runs none c r = Runs-check_magic Settled _ (Runs-fail_with Settled _ tt) c r
chdir-Runs (some []) c r = Runs-check_magic Settled _ (chdir_result-Runs (pos 2)) c r
chdir-Runs (some (b ∷ dir)) c r = rw r.genuine (elim (ftp_cmd-Runs (cd_command (b ∷ dir)) c r) [
  | ran a d _ rd e ↦ rw e (chdir_result-Runs a d rd)
])

-- One command that must be answered by class 2.
pub accepted-Runs :
    (a e : ℤ) (d : Conn)
    → Settled e
    → Ready d
    → Safe Settled ((if int_eq a (pos 2) then return k_no_err else fail_with e) d)
accepted-Runs a e d h r =
    Safe-choice Settled (int_eq a (pos 2)) (return k_no_err) (fail_with e) d
      (ran k_no_err d refl r refl) (ran e (record d { err_no = e }) h r refl)

pub rename_steps-Runs : (oldname newname : Bytes) → Runs Settled (rename_steps oldname newname)
unfolding rename_steps
rename_steps-Runs oldname newname c r = elim (ftp_cmd-Runs (codes "RNFR " ++ oldname) c r) [
  | ran (negsuc n) d _ rd e ↦ rw e (ran (negsuc n) d tt rd refl)
  | ran (pos n) d _ rd e ↦ rw e (
      Safe-choice Settled (n == 3) _ _ d
        (elim (ftp_cmd-Runs (codes "RNTO " ++ newname) d rd) [
          | ran (negsuc m) d' _ rd' e' ↦ rw e' (ran (negsuc m) d' tt rd' refl)
          | ran (pos m) d' _ rd' e' ↦ rw e' (accepted-Runs (pos m) _ d' tt rd')
        ])
        (ran _ (record d { err_no = _ }) tt rd refl))
]

pub rename-Runs : (oldname newname : Option Bytes) → Runs Settled (rename oldname newname)
unfolding rename
rename-Runs none newname c r = rw r.genuine (ran _ c tt r refl)
rename-Runs (some []) newname c r = rw r.genuine (ran _ c tt r refl)
rename-Runs (some (b ∷ o)) none c r = rw r.genuine (ran _ c tt r refl)
rename-Runs (some (b ∷ o)) (some n) c r = rw r.genuine (rename_steps-Runs (b ∷ o) n c r)

pub umask-Runs : (umsk : Option Bytes) → Runs Settled (umask umsk)
unfolding umask
umask-Runs none c r = rw r.genuine (ran _ c tt r refl)
umask-Runs (some []) c r = rw r.genuine (ran _ c tt r refl)
umask-Runs (some (b ∷ u)) c r =
    rw r.genuine (elim (ftp_cmd-Runs (codes "SITE UMASK " ++ (b ∷ u)) c r) [
      | ran a d _ rd e ↦ rw e (accepted-Runs a _ d tt rd)
    ])

pub symlink-Runs : (lfrom lto : Option Bytes) → Runs Settled (symlink lfrom lto)
unfolding symlink
symlink-Runs none lto c r = rw r.genuine (ran _ c tt r refl)
symlink-Runs (some lfrom) none c r = rw r.genuine (ran _ c tt r refl)
symlink-Runs (some []) (some lto) c r = rw r.genuine (ran _ c tt r refl)
symlink-Runs (some (a ∷ lfrom)) (some []) c r = rw r.genuine (ran _ c tt r refl)
symlink-Runs (some (a ∷ lfrom)) (some (b ∷ lto)) c r =
    let command = codes "SITE SYMLINK " ++ ((a ∷ lfrom) ++ (b' ' ∷ b ∷ lto)) in
    rw r.genuine
      (elim (ftp_cmd-Runs command c r) [ ran a d _ rd e ↦ rw e (accepted-Runs a _ d tt rd) ])

send_type-Runs : (type : Option ℕ) → Runs Settled (send_type type)
unfolding send_type
send_type-Runs none c r = ran _ (record c { err_no = _ }) tt r refl
send_type-Runs (some type) c r = elim (ftp_cmd-Runs (codes "TYPE " ++ (type ∷ [])) c r) [
  | ran a d _ rd e ↦ rw e (
      Safe-choice Settled (int_eq a (pos 2)) _ _ d
        (ran _ (record d { cur_transfer_type = type }) refl rd refl)
        (ran _ (record d { err_no = _ }) tt rd refl))
]

pub set_transfer_type-Runs : (type : ℕ) → Runs Settled (set_transfer_type type)
unfolding set_transfer_type
set_transfer_type-Runs type c r = rw r.genuine (
    Safe-if Settled (c.cur_transfer_type == type) _ _ (ran _ c refl r refl)
      (send_type-Runs (canonical_type type) c r))
