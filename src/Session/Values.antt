-- ===== src/Session/Values.antt =====
-- The commands whose reply has a value in its line, in a session.
use libncftp.Base.{
  ℕ, ◌≤◌, Bool, true, false, [], ◌∷◌, ◌++◌, List, Option, none, some, Bytes, codes, if◌then◌else◌,
  ℤ, pos, negsuc, is_neg, int_eq, length, ◌≡◌, refl, arith, ◌==◌,
}
use libncftp.Conn.{
  Conn, M, ◌>>=◌, ◌>>◌, then_do, return, Availability, unknown, available, not_available, fail_with,
}
use libncftp.Reply.{Response}
use libncftp.Commands.Ask.{unimplemented_cmd}
use libncftp.Commands.Facts.{
  is_not_available, use_size, ask_size, size_of_type, file_size, use_mdtm, ask_mdtm,
  file_modification_time,
}
use libncftp.Session.Ready.{
  Ready, Safe, ran, Runs, Settled, Safe-if, Safe-choice, HasLine, ask-Runs,
}
use libncftp.Session.Plain.{set_transfer_type-Runs}

-- The result of a command that gives a value too.
abbrev pub SettledWith : {A : Type 0} → ℤ × A → Type 0
SettledWith (e, a) = Settled e

-- What is done with a reply that must have a class of 2 and a line: errors go on, the line is used,
-- and other replies are refused.
pub read_line-Runs :
    {A : Type 0} (result : ℤ) (v : A) (msg : List Bytes) (use_line : Bytes → M (ℤ × A))
    (refused : M (ℤ × A)) (c : Conn)
    → (is_neg result ≡ false → 1 ≤ length msg)
    → Ready c
    → ((l : Bytes) → Safe SettledWith (use_line l c))
    → Safe SettledWith (refused c)
    → Safe SettledWith (
        (if is_neg result
            then return (result, v)
            else if int_eq result (pos 2)
            then (elim msg [ [] ↦ libncftp.Conn.fault | l ∷ _ ↦ use_line l ])
            else refused)
          c)
read_line-Runs (negsuc n) v msg use_line refused c has r hu hr = ran (negsuc n, v) c tt r refl
read_line-Runs (pos n) v [] use_line refused c has r hu hr =
    let one : 1 ≤ 0 = has refl in absurd (omega arith)
read_line-Runs (pos n) v (l ∷ ls) use_line refused c has r hu hr =
    Safe-choice SettledWith (n == 2) (use_line l) refused c (hu l) hr

use_size-Runs :
    (scan : Bytes → ℤ → ℤ) (result : ℤ) (rp : Response)
    → HasLine (result, rp)
    → Runs SettledWith (use_size scan result rp)
unfolding use_size
use_size-Runs scan result rp has c r =
    read_line-Runs result _ rp.msg _ _ c has r
      (λ l. ran _ (record c { has_size = available }) refl r refl)
      (Safe-choice SettledWith (unimplemented_cmd rp.code) _ _ c
        (ran _ (record c { has_size = not_available; err_no = _ }) tt r refl)
        (ran _ (record c { err_no = _ }) tt r refl))

pub file_size-Runs :
    (scan : Bytes → ℤ → ℤ) (file : Option Bytes) (wanted : Bool) (type : ℕ)
    → Runs SettledWith (file_size scan file wanted type)
unfolding file_size size_of_type ask_size
file_size-Runs scan none wanted type c r = rw r.genuine (ran _ c tt r refl)
file_size-Runs scan (some file) false type c r = rw r.genuine (ran _ c tt r refl)
file_size-Runs scan (some file) true type c r =
    rw r.genuine (elim (set_transfer_type-Runs type c r) [
      | ran (negsuc n) d _ rd e ↦ rw e (ran _ d tt rd refl)
      | ran (pos n) d _ rd e ↦ rw e (
          Safe-if SettledWith (is_not_available d.has_size) _ _
            (ran _ (record d { err_no = _ }) tt rd refl)
            (ask-Runs SettledWith (codes "SIZE " ++ file) _ (use_size scan) (use_size-Runs scan) d
              rd))
    ])

use_mdtm-Runs :
    (un_mdtm_date : Bytes → ℤ) (result : ℤ) (rp : Response)
    → HasLine (result, rp)
    → Runs SettledWith (use_mdtm un_mdtm_date result rp)
unfolding use_mdtm
use_mdtm-Runs un_mdtm_date result rp has c r =
    read_line-Runs result _ rp.msg _ _ c has r
      (λ l. ran _ (record c { has_mdtm = available }) refl r refl)
      (Safe-choice SettledWith (unimplemented_cmd rp.code) _ _ c
        (ran _ (record c { has_mdtm = not_available; has_mdtm_set = not_available; err_no = _ }) tt
          r refl)
        (ran _ (record c { err_no = _ }) tt r refl))

pub file_modification_time-Runs :
    (un_mdtm_date : Bytes → ℤ) (file : Option Bytes) (wanted : Bool)
    → Runs SettledWith (file_modification_time un_mdtm_date file wanted)
unfolding file_modification_time ask_mdtm
file_modification_time-Runs u none wanted c r = rw r.genuine (ran _ c tt r refl)
file_modification_time-Runs u (some file) false c r = rw r.genuine (ran _ c tt r refl)
file_modification_time-Runs u (some file) true c r = rw r.genuine (
    Safe-if SettledWith (is_not_available c.has_mdtm) _ _
      (ran _ (record c { err_no = _ }) tt r refl)
      (ask-Runs SettledWith (codes "MDTM " ++ file) _ (use_mdtm u) (use_mdtm-Runs u) c r))
