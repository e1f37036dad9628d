-- ===== src/Session/Read.antt =====
-- FTPUtime, FTPMListOneFile and FTPRemoteHelp in a session.
use libncftp.Base.{
  ℕ, ◌+◌, ◌≤◌, Bool, true, false, [], ◌∷◌, ◌++◌, List, Option, none, some, Bytes, codes,
  if◌then◌else◌, ℤ, pos, negsuc, int_eq, length, ◌≡◌, refl, arith, Bool-cases, inl, inr, ◌==◌, ◌||◌,
  ◌&&◌,
}
use libncftp.Conn.{Conn, M, ◌>>=◌, ◌>>◌, return, available, not_available, fail_with}
use libncftp.Conn.Errors.{k_no_err, k_err_utime_not_available, k_err_malloc_failed}
use libncftp.Reply.{Response, add_line, empty_response}
use libncftp.Command.{ftp_cmd}
use libncftp.Commands.Ask.{unimplemented_cmd, syntax_error_in_parameters}
use libncftp.Commands.Facts.{is_not_available}
use libncftp.Commands.Utime.{
  AfterSite, settled, falls_back, workaround, use_site_utime, use_mdtm_set, set_by_mdtm, after_site,
  site_utime, set_by_site, set_by_mfmt, set_by_mff, utime, settle, ncftpd, has_space,
}
use libncftp.Commands.Probe.{
  MlstItem, request_mls_options, mls_options, mlst_refused, use_facts, read_mlst, use_mlst,
  ask_mlst, mlist_one_file, no_mlst,
}
use libncftp.Commands.Probe.Facts.{copy_line_list, use_help, remote_help}
use libncftp.Session.Ready.{
  Ready, Safe, ran, Runs, Any, Settled, Safe-if, Safe-choice, ftp_cmd-Runs, r_cmd-Runs, HasLine,
  ask-Runs, init_response-Runs, done_with_response-Ready,
}
use libncftp.Session.Values.{SettledWith}

-- What is left behind SITE UTIME, if anything, is settled.
abbrev SettledAfter : AfterSite → Type 0
SettledAfter (settled e) = Settled e
SettledAfter _ = Unit

use_site_utime-Runs :
    (file : Bytes) (result : ℤ) (rp : Response)
    → HasLine (result, rp)
    → Runs SettledAfter (use_site_utime file result rp)
unfolding use_site_utime
use_site_utime-Runs file (negsuc n) rp has c r = ran _ c tt r refl
use_site_utime-Runs file (pos n) rp has c r =
    Safe-if SettledAfter (n == 2) _ _ (ran _ (record c { has_site_utime = available }) refl r refl)
      (Safe-if SettledAfter (unimplemented_cmd rp.code || syntax_error_in_parameters rp.code) _ _
        (ran _ (record c { has_site_utime = not_available; err_no = _ }) tt r refl)
        (Safe-if SettledAfter ((c.server_type == ncftpd) && has_space file) _ _ (ran _ c tt r refl)
          (ran _ (record c { err_no = _ }) tt r refl)))

use_mdtm_set-Runs :
    (result : ℤ) (rp : Response) → HasLine (result, rp) → Runs Settled (use_mdtm_set result rp)
unfolding use_mdtm_set
use_mdtm_set-Runs (negsuc n) rp has c r = ran _ c tt r refl
use_mdtm_set-Runs (pos n) rp has c r =
    Safe-if Settled (n == 2) _ _ (ran _ (record c { has_mdtm_set = available }) refl r refl) (
      Safe-if Settled
        (unimplemented_cmd rp.code || syntax_error_in_parameters rp.code || rp.code == 550) _ _
        (ran _ (record c { has_mdtm_set = not_available; err_no = _ }) tt r refl)
        (ran _ (record c { err_no = _ }) tt r refl))

settle-Runs : (result : ℤ) → Runs Settled (settle result)
settle-Runs result c r =
    Safe-choice Settled (int_eq result (pos 2) || int_eq result (pos 0)) _ _ c (ran _ c refl r refl)
      (ran _ (record c { err_no = _ }) tt r refl)

set_by_mdtm-Runs : (mstr file : Bytes) → Runs Settled (set_by_mdtm mstr file)
unfolding set_by_mdtm
set_by_mdtm-Runs mstr file c r =
    Safe-if Settled (is_not_available c.has_mdtm || is_not_available c.has_mdtm_set) _ _
      (ran _ (record c { err_no = _ }) tt r refl)
      (ask-Runs Settled (codes "MDTM " ++ (mstr ++ (b' ' ∷ file))) _ use_mdtm_set use_mdtm_set-Runs
        c r)

after_site-Runs :
    (mstr file : Bytes) (a : AfterSite) → SettledAfter a → Runs Settled (after_site mstr file a)
unfolding after_site
after_site-Runs mstr file (settled e) h c r = ran e c h r refl
after_site-Runs mstr file falls_back h c r = set_by_mdtm-Runs mstr file c r
after_site-Runs mstr file workaround h c r =
    elim (ftp_cmd-Runs (codes "MDTM " ++ (mstr ++ (b' ' ∷ file))) c r) [
      | ran a d _ rd e ↦ rw e (settle-Runs a d rd)
    ]

set_by_site-Runs :
    (mstr astr cstr file : Bytes) (result : ℤ)
    → Settled result
    → Runs Settled (set_by_site mstr astr cstr file result)
unfolding set_by_site
set_by_site-Runs mstr astr cstr file result h c r =
    Safe-if Settled (is_not_available c.has_site_utime) _ _
      (Safe-if Settled (int_eq result k_err_utime_not_available) _ _
        (set_by_mdtm-Runs mstr file c r) (ran result c h r refl))
      (elim (ask-Runs SettledAfter (site_utime mstr astr cstr file)
        (do e ← fail_with k_err_malloc_failed; return (settled e)) (use_site_utime file)
        (use_site_utime-Runs file) c r) [
          | ran a d p rd e ↦ rw e (after_site-Runs mstr file a p d rd)
        ])

set_by_mfmt-Runs :
    (mstr astr cstr file : Bytes) (result : ℤ)
    → Settled result
    → Runs Settled (set_by_mfmt mstr astr cstr file result)
unfolding set_by_mfmt
set_by_mfmt-Runs mstr astr cstr file result h c r =
    Safe-if Settled (libncftp.Commands.Utime.is_available c.has_mfmt) _ _
      (elim (ftp_cmd-Runs (codes "MFMT " ++ (mstr ++ (b' ' ∷ file))) c r) [
        | ran a d _ rd e ↦ rw e (settle-Runs a d rd)
      ])
      (set_by_site-Runs mstr astr cstr file _ (kept (int_eq result k_no_err)) c r)
  where
    kept : (b : Bool) → Settled (if b then k_err_utime_not_available else result)
    kept true = tt
    kept false = h

set_by_mff-Runs :
    (mstr astr cstr file : Bytes) (want : Bool) → Runs Settled (set_by_mff mstr astr cstr file want)
unfolding set_by_mff
set_by_mff-Runs mstr astr cstr file want c r =
    Safe-if Settled (libncftp.Commands.Utime.is_available c.has_mff && want) _ _
      (elim (ftp_cmd-Runs
        (codes "MFF Modify=" ++ (mstr ++ (codes ";Create=" ++ (cstr ++ (b' ' ∷ file))))) c r) [
          | ran a d _ rd e ↦ rw e (
              Safe-choice Settled (int_eq a (pos 2) || int_eq a (pos 0)) _ _ d
                (ran _ d refl rd refl)
                (set_by_mfmt-Runs mstr astr cstr file _ tt (record d { err_no = _ }) rd))
        ])
      (set_by_mfmt-Runs mstr astr cstr file k_no_err refl c r)

pub utime-Runs :
    (gm : ℤ → Option Bytes) (clock : ℤ) (file : Bytes) (actime modtime crtime : ℤ)
    → Runs Settled (utime gm clock file actime modtime crtime)
unfolding utime
utime-Runs gm clock file actime modtime crtime c r = rw r.genuine (set_by_mff-Runs _ _ _ file _ c r)

request_mls_options-Runs : Runs Any request_mls_options
unfolding request_mls_options
request_mls_options-Runs c r =
    Safe-if Any c.used_mls _ _ (ran _ c tt r refl) (go (mls_options c.mls_features))
  where
    go :
        (text : Bytes)
        → Safe Any (
            elim text as (λ _. M (Unit {0})) [
              | [] ↦ return tt
              | o ∷ options ↦ (ftp_cmd (codes "OPTS MLST " ++ (o ∷ options)) >> return tt)
            ]
              (record c { used_mls = true }))
    go [] = ran _ (record c { used_mls = true }) tt r refl
    go (o ∷ options) =
        elim (ftp_cmd-Runs (codes "OPTS MLST " ++ (o ∷ options)) (record c { used_mls = true }) r) [
          | ran a d _ rd e ↦ rw e (ran _ d tt rd refl)
        ]

mlst_refused-Runs : (code : ℕ) → Runs SettledWith (mlst_refused code)
unfolding mlst_refused
mlst_refused-Runs code c r =
    Safe-choice SettledWith (unimplemented_cmd code) _ _ c
      (ran _ (record c { has_mlst = not_available; err_no = _ }) tt r refl)
      (ran _ (record c { err_no = _ }) tt r refl)

use_facts-Runs : (o : Option MlstItem) → Runs SettledWith (use_facts o)
unfolding use_facts
use_facts-Runs none c r = ran _ (record c { err_no = _ }) tt r refl
use_facts-Runs (some item) c r = ran _ c refl r refl

read_mlst-Runs :
    (un_mls_t : Bytes → Option MlstItem) (code : ℕ) (msg : List Bytes)
    → 1 ≤ length msg
    → Runs SettledWith (read_mlst un_mls_t code msg)
unfolding read_mlst
read_mlst-Runs u code [] one c r = absurd (omega arith)
read_mlst-Runs u code (_ ∷ []) one c r = mlst_refused-Runs code c r
read_mlst-Runs u code (_ ∷ facts ∷ _) one c r = use_facts-Runs (u facts) c r

use_mlst-Runs :
    (un_mls_t : Bytes → Option MlstItem) (result : ℤ) (rp : Response)
    → HasLine (result, rp)
    → Runs SettledWith (use_mlst un_mls_t result rp)
unfolding use_mlst
use_mlst-Runs u (negsuc n) rp has c r = mlst_refused-Runs rp.code c r
use_mlst-Runs u (pos n) rp has c r =
    Safe-choice SettledWith (n == 2) _ _ c (read_mlst-Runs u rp.code rp.msg (has refl) c r)
      (mlst_refused-Runs rp.code c r)

pub mlist_one_file-Runs :
    (un_mls_t : Bytes → Option MlstItem) (file : Bytes)
    → Runs SettledWith (mlist_one_file un_mls_t file)
unfolding mlist_one_file ask_mlst
mlist_one_file-Runs u file c r =
    Safe-if SettledWith (no_mlst c) _ _ (ran _ (record c { err_no = _ }) tt r refl) (
      rw (init_response-Runs c r)
        (elim (request_mls_options-Runs (record c { allocs = c.allocs + 1 }) r) [
          | ran _ d _ rd e ↦ rw e (elim (r_cmd-Runs empty_response (codes "MLST " ++ file) d rd) [
            | ran (result, rp) d' has rd' e' ↦ rw e' (elim (use_mlst-Runs u result rp has d' rd') [
              | ran a d'' p rd'' e'' ↦
                  rw e'' (ran a _ p (done_with_response-Ready rp d'' rd'') refl)
            ])
          ])
        ]))

copy_line_list-Ready :
    (dst src : List Bytes) (c : Conn)
    → Ready c
    → (n : ℕ) × ((copy_line_list dst src c).1 ≡ record c { allocs = n })
unfolding copy_line_list add_line
copy_line_list-Ready dst [] c r = (c.allocs, refl)
copy_line_list-Ready dst (l ∷ ls) c r =
    let (n, e) = copy_line_list-Ready (dst ++ (l ∷ [])) ls (record c { allocs = c.allocs + 2 }) r in
    elim (Bool-cases (length (dst ++ (l ∷ [])) == length dst)) [
      | inl same ↦ (c.allocs + 2, rw (r.memory c.allocs, r.memory (c.allocs + 1), same))
      | inr grown ↦ (n, rw (r.memory c.allocs, r.memory (c.allocs + 1), grown) e)
    ]

use_help-Runs : (result : ℤ) (rp : Response) → Runs SettledWith (use_help result rp)
unfolding use_help
use_help-Runs (negsuc n) rp c r = ran _ c tt r refl
use_help-Runs (pos n) rp c r =
    Safe-choice SettledWith (n == 2) _ _ c
      (go (copy_line_list [] rp.msg c) (copy_line_list-Ready [] rp.msg c r))
      (ran _ (record c { err_no = _ }) tt r refl)
  where
    go :
        (out : Option (List Bytes) × Conn)
        → (n : ℕ) × (out.1 ≡ record c { allocs = n })
        → Safe SettledWith (elim out.0 as (λ _. Option ((ℤ × List Bytes) × Conn)) [
          | none ↦ some ((k_err_malloc_failed, []), record (out.1) { err_no = k_err_malloc_failed })
          | some list ↦ some ((k_no_err, list), out.1)
        ])
    go (none, d) (n, e) = ran _ (record d { err_no = _ }) tt (rw e r) refl
    go (some list, d) (n, e) = ran _ d refl (rw e r) refl

pub remote_help-Runs : (pattern : Option Bytes) → Runs SettledWith (remote_help pattern)
unfolding remote_help
remote_help-Runs pattern c r =
    rw r.genuine (ask-Runs SettledWith _ _ use_help (λ result rp has. use_help-Runs result rp) c r)
