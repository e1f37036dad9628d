-- ===== src/Session/Names.antt =====
-- FTPChdirList, and FTPChdir3 with the whole path, in a session.
use libncftp.Base.{
  ◌+◌, Bool, true, false, not, [], ◌∷◌, ◌++◌, List, Option, none, some, Bytes, codes, ℤ, pos,
  is_neg, int_eq, ◌≡◌, refl, arith, Bool-cases, inl, inr, ◌||◌, ◌&&◌, strcmp_eq,
}
use libncftp.Conn.{Conn}
use libncftp.Conn.Errors.{k_no_err}
use libncftp.Commands.Directory.{Destination, nowhere, cache, array}
use libncftp.Commands.Chdir3.{
  Flags, keep, enter_dir, enter_name, make_and_enter, recover_name, enter_line, enter_lines,
  by_lines, whole_path, chdir3_steps, chdir3, joined, chdir_list,
}
use libncftp.Commands.Mkdir.{mkdir}
use libncftp.Session.Ready.{Safe, ran, Runs, Settled, Safe-choice, ftp_cmd-Runs}
use libncftp.Session.Plain.{chdir-Runs}
use libncftp.Session.Walks.{Given, GotCwd, get_cwd-Runs}
use libncftp.Session.Destination.{GoodOut}
use libncftp.Session.Move.{untouched-Given, chdir_and_get_cwd-Runs}
use libncftp.Session.Make.{Named, mkdir2-Runs}

keep-Given : (to : Destination) (out : Bytes) → GoodOut to out → Given (keep to out)
keep-Given nowhere out h = tt
keep-Given cache out h = tt
keep-Given (array a) out h = h

-- What is left with the array carried on.
GotCwd-keep : (to : Destination) (x : Bytes) (p : ℤ × Bytes) → GotCwd (keep to x) p → GotCwd to p
GotCwd-keep nowhere x p h = h
GotCwd-keep cache x p h = h
GotCwd-keep (array a) x p h = h

Safe-keep :
    (to : Destination) (x : Bytes) (out : Option ((ℤ × Bytes) × Conn))
    → Safe (GotCwd (keep to x)) out
    → Safe (GotCwd to) out
Safe-keep to x out (ran a d p r e) = ran a d (GotCwd-keep to x a p) r e

enter_dir-Runs :
    (pwd : Bool) (dir : Bytes) (to : Destination)
    → Given to
    → Runs (GotCwd to) (enter_dir pwd dir to)
unfolding enter_dir
enter_dir-Runs true dir to given c r = chdir_and_get_cwd-Runs (some dir) to given c r
enter_dir-Runs false dir to given c r = elim (chdir-Runs (some dir) c r) [
  | ran a d p rd e ↦ rw e (ran _ d (p, untouched-Given to given) rd refl)
]

enter_name-Runs :
    (pwd : Bool) (name : Bytes) (to : Destination)
    → Given to
    → Runs (GotCwd to) (enter_name pwd name to)
unfolding enter_name
enter_name-Runs pwd [] to given c r = enter_dir-Runs pwd (codes "/") to given c r
enter_name-Runs pwd (b ∷ name) to given c r =
    Safe-choice (GotCwd to) (strcmp_eq (b ∷ name) (codes ".")) _ _ c
      (Safe-choice (GotCwd to) pwd _ _ c (get_cwd-Runs to given c r)
        (ran _ c (refl, untouched-Given to given) r refl))
      (enter_dir-Runs pwd (b ∷ name) to given c r)

make_and_enter-Runs :
    (pwd : Bool) (result : ℤ) (name : Bytes) (to : Destination)
    → Given to
    → Settled result
    → Runs (GotCwd to) (make_and_enter pwd result name to)
unfolding make_and_enter
make_and_enter-Runs pwd result name to given h c r =
    elim (ftp_cmd-Runs (codes "MKD " ++ name) c r) [
      | ran a d _ rd e ↦ rw e (
          Safe-choice (GotCwd to) (int_eq a (pos 2)) _ _ d (enter_dir-Runs pwd name to given d rd)
            (ran _ (record d { err_no = _ }) (h, untouched-Given to given) rd refl))
    ]

recover_name-Runs :
    (flags : Flags) (result : ℤ) (name : Bytes) (to : Destination)
    → Given to
    → Settled result
    → Runs (GotCwd to) (recover_name flags result name to)
unfolding recover_name
recover_name-Runs flags result [] to given h c r =
    ran _ (record c { err_no = _ }) (h, untouched-Given to given) r refl
recover_name-Runs flags result (b ∷ name) to given h c r =
    Safe-choice (GotCwd to) flags.mkd _ _ c
      (make_and_enter-Runs false result (b ∷ name) to given h c r)
      (ran _ (record c { err_no = _ }) (h, untouched-Given to given) r refl)

enter_line-Runs :
    (flags : Flags) (last : Bool) (name : Bytes) (to : Destination)
    → Given to
    → Runs (GotCwd to) (enter_line flags last name to)
unfolding enter_line
enter_line-Runs flags last name to given c r =
    elim (enter_name-Runs (last && flags.pwd) name to given c r) [
      | ran (e, out) d (settled, good) rd eq ↦ rw eq (
          Safe-choice (GotCwd to) (is_neg e) _ _ d
            (Safe-keep to out _
              (recover_name-Runs flags e name (keep to out) (keep-Given to out good) settled d rd))
            (ran _ d (settled, good) rd refl))
    ]

enter_lines-Runs :
    (flags : Flags) (list : List Bytes) (to : Destination)
    → Given to
    → Runs (GotCwd to) (enter_lines flags list to)
unfolding enter_lines
enter_lines-Runs flags [] to given c r = ran _ c (refl, untouched-Given to given) r refl
enter_lines-Runs flags (l ∷ []) to given c r = enter_line-Runs flags true l to given c r
enter_lines-Runs flags (l ∷ m ∷ ls) to given c r =
    elim (enter_line-Runs flags false l to given c r) [
      | ran (e, out) d (settled, good) rd eq ↦ rw eq (
          Safe-choice (GotCwd to) (int_eq e k_no_err) _ _ d
            (Safe-keep to out _
              (enter_lines-Runs flags (m ∷ ls) (keep to out) (keep-Given to out good) d rd))
            (ran _ d (settled, good) rd refl))
    ]

by_lines-Runs :
    (flags : Flags) (list : List Bytes) (to : Destination)
    → Given to
    → Runs (GotCwd to) (by_lines flags list to)
unfolding by_lines
by_lines-Runs flags list to given c r =
    Safe-choice (GotCwd to) flags.one _ _ c (enter_lines-Runs flags list to given c r)
      (ran _ c (tt, untouched-Given to given) r refl)

whole_path-Runs :
    (flags : Flags) (path : Bytes) (to : Destination)
    → Given to
    → (flags.mkd ≡ true → Named (some path))
    → Runs (GotCwd to) (whole_path flags path to)
unfolding whole_path mkdir
whole_path-Runs flags path to given named c r = elim (enter_dir-Runs flags.pwd path to given c r) [
  | ran (e, out) d p rd eq ↦ rw eq (
      Safe-choice (GotCwd to) (int_eq e k_no_err) _ _ d (ran _ d p rd refl)
        (elim (Bool-cases flags.mkd) [
          | inr plain ↦ rw plain (ran _ d p rd refl)
          | inl wanted ↦
              rw wanted (elim (mkdir2-Runs (some path) true none (λ _. named wanted) d rd) [
                | ran a d' _ rd' eq' ↦ rw eq' (
                    Safe-choice (GotCwd to) (int_eq a k_no_err) _ _ d'
                      (Safe-keep to out _ (
                        enter_dir-Runs flags.pwd path (keep to out) (keep-Given to out p.1) d' rd'))
                      (ran _ d' p rd' refl))
              ])
        ]))
]

-- FTPChdir3 that does not go name by name.
pub chdir3-Runs :
    (path : Option Bytes) (to : Destination) (flags : Flags)
    → Given to
    → flags.one ≡ false
    → (flags.mkd ≡ true → Named path)
    → Runs (GotCwd to) (chdir3 path to flags)
unfolding chdir3 chdir3_steps
chdir3-Runs none to flags given whole named c r =
    rw r.genuine (ran _ (record c { err_no = _ }) (tt, untouched-Given to given) r refl)
chdir3-Runs (some path) to flags given whole named c r =
    let always : (flags.ful || not flags.one) ≡ true = ground arith in
    rw (r.genuine, always)
      (elim (whole_path-Runs flags path to given named c r) [
        | ran (e, out) d p rd eq ↦
            rw (eq, whole)
              (Safe-choice (GotCwd to) (int_eq e k_no_err) _ _ d (ran _ d p rd refl)
                (ran _ d p rd refl))
      ])

pub chdir_list-Runs :
    (list : List Bytes) (to : Destination) (flags : Flags)
    → Given to
    → (flags.mkd ≡ true → Named (some (joined list)))
    → Runs (GotCwd to) (chdir_list list to flags)
unfolding chdir_list
chdir_list-Runs list to flags given named c r =
    Safe-choice (GotCwd to) (flags.ful || not (flags.mkd || flags.pwd || flags.one)) _ _ c
      (rw (r.memory c.allocs)
        (elim (chdir3-Runs (some (joined list)) to (record flags { one = false; ful = true }) given
          refl named (record c { allocs = c.allocs + 1 }) r) [
            | ran (e, out) d p rd eq ↦ rw eq (
                Safe-choice (GotCwd to) (int_eq e k_no_err) _ _ d (ran _ d p rd refl) (
                  Safe-keep to out _
                    (by_lines-Runs flags list (keep to out) (keep-Given to out p.1) d rd)))
          ]))
      (by_lines-Runs flags list to given c r)
