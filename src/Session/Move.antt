-- ===== src/Session/Move.antt =====
-- FTPChdirAndGetCWD, FTPChdirList, and FTPChdir3 with the whole path, in a session.
use libncftp.Base.{
  ◌+◌, ◌≤◌, false, [], ◌∷◌, List, Option, none, some, Bytes, ℤ, pos, negsuc, is_neg, length, ◌≡◌,
  refl, arith, Bool-cases, inl, inr, ◌==◌, ◌⊎◌, ==_iff,
}
use libncftp.Conn.{Conn, M, ◌>>=◌, return}
use libncftp.Conn.Errors.{k_no_err}
use libncftp.Reply.{empty_response, done_with_response}
use libncftp.Commands.Directory.{
  Destination, nowhere, cache, array, invalidate, untouched, store_cwd, cd_command, cwd_text,
  use_cwd, chdir_and_ask, chdir_and_get_cwd_to, chdir_and_get_cwd,
}
use libncftp.Session.Ready.{
  Ready, Safe, ran, Runs, Settled, Safe-choice, init_response-Runs, r_cmd-Runs,
  done_with_response-Ready,
}
use libncftp.Session.Plain.{Ready-forget_cwd}
use libncftp.Session.Walks.{Given, GotCwd, get_cwd-Runs}
use libncftp.Session.Destination.{ran_with, Sound, GoodOut, store_cwd-Stored, untouched-GoodOut}

-- What the reply to CWD leaves: the array is good if it is settled.
abbrev Moved : Destination → ℤ × Option Bytes → Type 0
Moved to (e, none) = Settled e
Moved to (e, some out) = Settled e × GoodOut to out

store_found :
    (to : Destination) (found : Option Bytes) (c : Conn)
    → Sound to
    → Ready c
    → Safe (Moved to) (
        elim found as (λ _. M (ℤ × Option Bytes)) [
          | none ↦ return (k_no_err, none)
          | some dir ↦ (store_cwd to (some dir) >>= λ out. return (k_no_err, some out))
        ]
          c)
store_found to none c sound r = ran _ c refl r refl
store_found to (some dir) c sound r = elim (store_cwd-Stored to (some dir) c sound r) [
  | ran_with out d (good, _) rd e ↦ rw e (ran _ d (refl, good) rd refl)
]

use_cwd-Moved :
    (to : Destination) (result : ℤ) (msg : List Bytes)
    → Sound to
    → (is_neg result ≡ false → 1 ≤ length msg)
    → Runs (Moved to) (use_cwd to result msg)
unfolding use_cwd
use_cwd-Moved to (negsuc n) msg sound has c r = ran _ c (tt, untouched-GoodOut to sound) r refl
use_cwd-Moved to (pos n) [] sound has c r = let one : 1 ≤ 0 = has refl in absurd (omega arith)
use_cwd-Moved to (pos n) (text ∷ others) sound has c r =
    Safe-choice (Moved to) (n == 2) _ _ c
      (store_found to (cwd_text text) (record c { cwd = invalidate c.cwd }) sound
        (Ready-forget_cwd c r))
      (elim (Bool-cases (n == 0)) [
        | inl e ↦ rw e (ran _ c ((==_iff n 0).0 e, untouched-GoodOut to sound) r refl)
        | inr e ↦ rw e (ran _ (record c { err_no = _ }) (tt, untouched-GoodOut to sound) r refl)
      ])

Sound-Given : (to : Destination) → Sound to → Given to
Sound-Given nowhere h = tt
Sound-Given cache h = tt
Sound-Given (array a) h = h

chdir_and_ask-GotCwd :
    (to : Destination) (dir : Bytes) → Sound to → Runs (GotCwd to) (chdir_and_ask to dir)
unfolding chdir_and_ask
chdir_and_ask-GotCwd to dir sound c r =
    rw (init_response-Runs c r)
      (elim (r_cmd-Runs empty_response (cd_command dir) (record c { allocs = c.allocs + 1 }) r) [
        | ran (result, rp) d has rd e ↦ rw e (elim (use_cwd-Moved to result rp.msg sound has d rd) [
          | ran (er, none) d' settled rd' e' ↦ rw e' (
              get_cwd-Runs to (Sound-Given to sound) (done_with_response (some rp) d')
                (done_with_response-Ready rp d' rd'))
          | ran (er, some out) d' p rd' e' ↦
              rw e' (ran (er, out) _ p (done_with_response-Ready rp d' rd') refl)
        ])
      ])

pub untouched-Given : (to : Destination) → Given to → GoodOut to (untouched to)
untouched-Given nowhere h = tt
untouched-Given cache h = tt
untouched-Given (array a) h = h

chdir_and_get_cwd_to-GotCwd :
    (dir : Option Bytes) (to : Destination) (place : Option Bytes)
    → Given to
    → (Sound to ⊎ (place ≡ none))
    → Runs (GotCwd to) (chdir_and_get_cwd_to dir to place)
unfolding chdir_and_get_cwd_to
chdir_and_get_cwd_to-GotCwd dir to none given h c r =
    ran _ (record c { err_no = _ }) (tt, untouched-Given to given) r refl
chdir_and_get_cwd_to-GotCwd none to (some b) given h c r =
    ran _ (record c { err_no = _ }) (tt, untouched-Given to given) r refl
chdir_and_get_cwd_to-GotCwd (some []) to (some b) given h c r = get_cwd-Runs to given c r
chdir_and_get_cwd_to-GotCwd (some (x ∷ dir)) to (some b) given (inl sound) c r =
    chdir_and_ask-GotCwd to (x ∷ dir) sound c r
chdir_and_get_cwd_to-GotCwd (some (x ∷ dir)) to (some b) given (inr e) c r = absurd (cc)

pub chdir_and_get_cwd-Runs :
    (dir : Option Bytes) (to : Destination) → Given to → Runs (GotCwd to) (chdir_and_get_cwd dir to)
unfolding chdir_and_get_cwd
chdir_and_get_cwd-Runs dir nowhere given c r =
    rw r.genuine (chdir_and_get_cwd_to-GotCwd dir nowhere none given (inr refl) c r)
chdir_and_get_cwd-Runs dir cache given c r =
    rw r.genuine (chdir_and_get_cwd_to-GotCwd dir cache c.cwd given (inl tt) c r)
chdir_and_get_cwd-Runs dir (array a) given c r =
    rw r.genuine (chdir_and_get_cwd_to-GotCwd dir (array a) (some a) given (inl given) c r)
