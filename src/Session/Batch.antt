-- ===== src/Session/Batch.antt =====
-- FTPRemoteGlob and the commands for a list of names, over a data connection.
use libncftp.Base.{
  ◌+◌, Bool, true, [], ◌∷◌, ◌++◌, List, Option, none, some, Bytes, codes, if◌then◌else◌, ℤ, pos,
  negsuc, is_neg, int_eq, refl, ◌==◌, ◌&&◌,
}
use libncftp.Conn.{M, ◌>>=◌, return, not_available}
use libncftp.Conn.Errors.{k_no_err}
use libncftp.Reply.{add_line}
use libncftp.Command.{ftp_cmd}
use libncftp.Commands.Glob.{
  DataConnection, strip_unneccesary_glob_entries, is_glob_char, any, filtered, glob_error,
  use_listing, listing, is_star, glob_asked, glob_remotely, remote_glob,
}
use libncftp.Commands.Glob.Collapse.{remote_glob_collapse-Tame}
use libncftp.Commands.Batch.{
  Once, fine, noted, broken, for_each, chmod_once, rmd_tree, rmd_once, dele_once, over_names,
}
use libncftp.Session.Ready.{ran, Runs, Settled, Safe-if, Safe-choice, ftp_cmd-Runs}
use libncftp.Session.Values.{SettledWith}

-- A data connection whose functions end, settle their result and keep the block ready.
pub record Behaves (net : DataConnection) : Type 0 where
  pub list_runs : (pattern flags : Bytes) → Runs SettledWith (net.list_to_memory pattern flags)
  pub put_runs : (name text : Bytes) → Runs Settled (net.put_file_from_memory name text)

-- The end of FTPRemoteGlob.
filtered-Runs : (pattern : Bytes) (list : List Bytes) → Runs SettledWith (filtered pattern list)
unfolding filtered
filtered-Runs pattern list c r =
    let (names, n, e, tame) =
      remote_glob_collapse-Tame pattern (strip_unneccesary_glob_entries list) c r.memory in
    rw e (ran _ (record c { allocs = n }) refl r refl)

use_listing-Runs :
    (pattern : Bytes) (list : List Bytes) → Runs SettledWith (use_listing pattern list)
unfolding use_listing
use_listing-Runs pattern [] c r = ran _ (record c { err_no = _ }) tt r refl
use_listing-Runs pattern (l ∷ []) c r =
    Safe-choice SettledWith (glob_error (codes ": No such file or directory") l) _ _ c
      (ran _ (record c { err_no = _ }) tt r refl)
      (Safe-choice SettledWith (glob_error (codes ": No match") l) _ _ c
        (ran _ (record c { err_no = _ }) tt r refl) (filtered-Runs pattern (l ∷ []) c r))
use_listing-Runs pattern (l ∷ m ∷ ls) c r = filtered-Runs pattern (l ∷ m ∷ ls) c r

module _ (net : DataConnection) (behaves : Behaves net) where
  listing-Runs : (pattern flags : Bytes) → Runs SettledWith (listing net pattern flags)
  unfolding listing
  listing-Runs pattern [] c r = behaves.list_runs pattern [] c r
  listing-Runs pattern (f ∷ flags) c r = elim (behaves.list_runs pattern (f ∷ flags) c r) [
    | ran (negsuc n, list) d p rd e ↦
        rw e (behaves.list_runs pattern [] (record d { has_nlst_a = not_available }) rd)
    | ran (pos n, list) d p rd e ↦ rw e (ran _ d p rd refl)
  ]

  glob_asked-Runs : (asked flags : Bytes) → Runs SettledWith (glob_asked net asked flags)
  unfolding glob_asked
  glob_asked-Runs asked flags c r = elim (listing-Runs asked flags c r) [
    | ran (negsuc n, list) d p rd e ↦ rw e (ran _ d p rd refl)
    | ran (pos n, list) d p rd e ↦ rw e (use_listing-Runs asked list d rd)
  ]

  glob_remotely-Runs : (pattern : Bytes) → Runs SettledWith (glob_remotely net pattern)
  unfolding glob_remotely
  glob_remotely-Runs pattern c r =
      Safe-if SettledWith (is_star pattern) _ _ (glob_asked-Runs [] _ c r)
        (glob_asked-Runs pattern [] c r)

  remote_glob-Runs :
      (pattern : Option Bytes) (do_glob : Bool) → Runs SettledWith (remote_glob net pattern do_glob)
  unfolding remote_glob add_line
  remote_glob-Runs none do_glob c r = rw r.genuine (ran _ c tt r refl)
  remote_glob-Runs (some []) do_glob c r = rw r.genuine (ran _ c tt r refl)
  remote_glob-Runs (some (b ∷ pattern)) do_glob c r = rw r.genuine (
      Safe-if SettledWith (do_glob && any is_glob_char (b ∷ pattern)) _ _
        (glob_remotely-Runs (b ∷ pattern) c r)
        (rw (r.memory c.allocs, r.memory (c.allocs + 1))
          (ran _ (record c { allocs = c.allocs + 2 }) refl r refl)))

-- What one round of the loop leaves is settled.
abbrev pub SettledOnce : Once → Type 0
SettledOnce fine = Unit
SettledOnce (noted e) = Settled e
SettledOnce (broken e) = Settled e

for_each-Runs :
    (each : Bytes → M Once) (result : ℤ) (list : List Bytes)
    → ((file : Bytes) → Runs SettledOnce (each file))
    → Settled result
    → Runs Settled (for_each each result list)
unfolding for_each
for_each-Runs each result [] runs h c r = ran result c h r refl
for_each-Runs each result (file ∷ files) runs h c r = elim (runs file c r) [
  | ran fine d p rd e ↦ rw e (for_each-Runs each result files runs h d rd)
  | ran (noted er) d p rd e ↦ rw e (for_each-Runs each er files runs p d rd)
  | ran (broken er) d p rd e ↦ rw e (ran er d p rd refl)
]

-- A command that leaves the loop as it is on class 2, and breaks it off on an error.
once-Runs :
    (command : Bytes) (otherwise : M Once)
    → Runs SettledOnce otherwise
    → Runs SettledOnce (
        ftp_cmd command >>= λ once.
        if is_neg once
        then return (broken once)
        else if int_eq once (pos 2)
        then return fine
        else otherwise)
once-Runs command otherwise runs c r = elim (ftp_cmd-Runs command c r) [
  | ran (negsuc n) d _ rd e ↦ rw e (ran _ d tt rd refl)
  | ran (pos n) d _ rd e ↦
      rw e (Safe-choice SettledOnce (n == 2) _ _ d (ran fine d tt rd refl) (runs d rd))
]

pub chmod_once-Runs : (mode file : Bytes) → Runs SettledOnce (chmod_once mode file)
unfolding chmod_once
chmod_once-Runs mode file =
    once-Runs (codes "SITE CHMOD " ++ mode ++ (b' ' ∷ file)) _
      (λ d rd. ran _ (record d { err_no = _ }) tt rd refl)

module _ (remove_tree : Bytes → M ℤ)
    (removes : (dir : Bytes) → Runs Settled (remove_tree dir)) where
  rmd_tree-Runs : (file : Bytes) → Runs SettledOnce (rmd_tree remove_tree file)
  unfolding rmd_tree
  rmd_tree-Runs file c r = elim (removes file c r) [
    | ran (negsuc n) d p rd e ↦ rw e (ran _ (record d { err_no = _ }) tt rd refl)
    | ran (pos n) d p rd e ↦ rw e (ran _ d tt rd refl)
  ]

  pub rmd_once-Runs :
      (recurse : Bool) (file : Bytes) → Runs SettledOnce (rmd_once remove_tree recurse file)
  unfolding rmd_once
  rmd_once-Runs recurse file = once-Runs (codes "RMD " ++ file) _ (λ d rd.
      Safe-choice SettledOnce recurse _ _ d (rmd_tree-Runs file d rd)
        (ran _ (record d { err_no = _ }) tt rd refl))

  pub dele_once-Runs :
      (recurse : Bool) (file : Bytes) → Runs SettledOnce (dele_once remove_tree recurse file)
  unfolding dele_once
  dele_once-Runs recurse file = once-Runs (codes "DELE " ++ file) _ (λ d rd.
      Safe-choice SettledOnce recurse _ _ d (rmd_once-Runs true file d rd)
        (ran _ (record d { err_no = _ }) tt rd refl))

-- The batch commands, for what they do with one name.
pub over_names-Runs :
    (net : DataConnection) (pattern : Option Bytes) (do_glob : Bool) (each : Bytes → M Once)
    → Behaves net
    → ((file : Bytes) → Runs SettledOnce (each file))
    → Runs Settled (over_names net pattern do_glob each)
unfolding over_names
over_names-Runs net pattern do_glob each behaves runs c r =
    rw r.genuine (elim (remote_glob-Runs net behaves pattern do_glob c r) [
      | ran (e, list) d p rd eq ↦ rw eq (
          Safe-choice Settled (int_eq e k_no_err) _ _ d
            (for_each-Runs each k_no_err list runs refl d rd) (ran e d p rd refl))
    ])
