-- ===== src/Commands/Probe/Stat.antt =====
-- FTPFileExistsStat of libncftp/c_exists.c. The array `savedCwd` is given with its first content,
-- `unwritten`.
use libncftp.Base.{
  Bool, true, false, not, ◌&&◌, ◌||◌, [], ◌∷◌, ◌++◌, List, Option, none, some, Bytes, codes,
  if◌then◌else◌, ◌==◌, leb, ℤ, pos, is_neg, int_eq, length, strncmp_eq, c_string, unsnoc,
}
use libncftp.Conn.{
  M, unknown, available, not_available, ◌>>=◌, ◌>>◌, return, modify, gets, fault, fail_with,
  check_magic,
}
use libncftp.Conn.Errors.{
  k_no_err, k_err_bad_parameter, k_err_malloc_failed, k_err_stat_failed,
  k_err_stat_with_file_not_available,
}
use libncftp.Reply.{Response}
use libncftp.Commands.Ask.{ask}
use libncftp.Commands.Directory.{array, get_cwd, chdir}
use libncftp.Commands.Probe.{Readers}

-- `strstr(s, t) != NULL`
abbrev pub contains : Bytes → Bytes → Bool
contains t [] = strncmp_eq (length t) t []
contains t (c ∷ s) =
    let rest = contains t s in if strncmp_eq (length t) t (c ∷ s) then true else rest

abbrev pub says_missing : Bytes → Bool
says_missing l = contains (codes "o such file") l || contains (codes "ot found") l

-- The second line of a reply, if there is one, says that the file is missing.
abbrev pub second_says_missing : List Bytes → Bool
second_says_missing [] = false
second_says_missing (_ ∷ []) = false
second_says_missing (_ ∷ second ∷ _) = says_missing second

-- `cip->STATfileParamWorks = kCommandNotAvailable; cip->errNo = e; result = e;`
abbrev pub stat_unusable : M ℤ
stat_unusable = do
  modify (λ c. record c { stat_file_param_works = not_available })
  fail_with k_err_stat_with_file_not_available

-- The first try, of a file that does not exist: STAT is unusable if it is accepted in one line or in
-- three, without the words for a missing file.
unfoldable pub use_stat_nosuch : ℤ → Response → M (Option ℤ)
unfolding strncmp_eq
use_stat_nosuch result rp =
    if int_eq result (pos 2) && (leb 3 (length rp.msg) || length rp.msg == 1)
    then (if second_says_missing rp.msg
        then return none
        else (do e ← stat_unusable; return (some e)))
    else return none

-- The second try, of a file that exists.
unfoldable pub use_stat_existing : ℤ → Response → M (Option ℤ)
unfolding strncmp_eq
use_stat_existing result rp =
    if not (int_eq result (pos 2)) || length rp.msg == 2
    then (do e ← stat_unusable; return (some e))
    else (elim rp.msg [
      | [] ↦ fault
      | l ∷ ls ↦
          if second_says_missing (l ∷ ls)
          then (do e ← stat_unusable; return (some e))
          else return none
    ])

-- The reply to STAT of the file itself.
unfoldable pub use_stat : ℤ → Response → M ℤ
unfolding strncmp_eq
use_stat result rp =
    if int_eq result (pos 2)
    then (if (leb 3 (length rp.msg) || length rp.msg == 1)
        then (if second_says_missing rp.msg then fail_with k_err_stat_failed else return k_no_err)
        else if length rp.msg == 2
        then fail_with k_err_stat_failed
        else return k_no_err)
    else fail_with k_err_stat_failed

-- `(void) FTPChdir(cip, savedCwd);` and the result.
unfoldable pub leave_to : Bytes → Option ℤ → M (Option ℤ)
unfolding chdir c_string
leave_to saved e = elim (c_string saved) [ none ↦ fault | some dir ↦ do chdir (some dir); return e ]

abbrev pub is_none : Option ℤ → Bool
is_none none = true
is_none (some e) = false

abbrev pub last_line : List Bytes → Option Bytes
last_line list = elim (unsnoc list) [ none ↦ none | some (_, l) ↦ some l ]

-- The second try of STAT, in the starting directory, on its last file.
unfoldable pub try_stat_existing : Readers → Bytes → M (Option ℤ)
unfolding use_stat_existing leave_to
try_stat_existing readers saved = do
  pair ← readers.net.list_to_memory [] []
  elim (if is_neg pair.0 then none else last_line pair.1) [
    | none ↦ do e ← stat_unusable; leave_to saved (some e)
    | some l ↦ do
      e ←
          ask (codes "STAT " ++ l) (do e ← fail_with k_err_malloc_failed; return (some e))
            use_stat_existing
      modify (λ c. if is_none e then record c { stat_file_param_works = available } else c)
      leave_to saved e
  ]

-- FTPGetCWD and FTPChdir to the starting directory; if one fails, `cip->errNo`.
unfoldable pub to_start : Bytes → (Bytes → M (Option ℤ)) → M (Option ℤ)
unfolding get_cwd chdir
to_start unwritten next = do
  pair ← get_cwd (array unwritten)
  if int_eq pair.0 k_no_err
      then (do
        start ← gets (λ c. c.starting_cwd)
        result ← chdir start
        if int_eq result k_no_err then next pair.1 else gets (λ c. some c.err_no))
      else gets (λ c. some c.err_no)

-- Whether STAT can be used, if that is not known; none if it can.
unfoldable pub learn_stat : Readers → Bytes → M (Option ℤ)
unfolding use_stat_nosuch to_start try_stat_existing
learn_stat readers unwritten = do
  e ←
      ask (codes "STAT NoSuchFile") (do e ← fail_with k_err_malloc_failed; return (some e))
        use_stat_nosuch
  elim e [ some e ↦ return (some e) | none ↦ to_start unwritten (try_stat_existing readers) ]

-- FTPFileExistsStat once it is known that STAT can be used.
unfoldable pub stat_file : Bytes → M ℤ
unfolding use_stat
stat_file file = ask (codes "STAT " ++ file) (fail_with k_err_malloc_failed) use_stat

-- FTPFileExistsStat
unfoldable pub file_exists_stat : Readers → Bytes → Option Bytes → M ℤ
unfolding learn_stat stat_file
file_exists_stat readers unwritten none = check_magic (return k_err_bad_parameter)
file_exists_stat readers unwritten (some file) = check_magic (λ c. elim c.stat_file_param_works [
  | not_available ↦ fail_with k_err_stat_with_file_not_available c
  | available ↦ stat_file file c
  | unknown ↦
      (do e ← learn_stat readers unwritten; elim e [ some e ↦ return e | none ↦ stat_file file ]) c
])
