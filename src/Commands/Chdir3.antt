-- ===== src/Commands/Chdir3.antt =====
-- libncftp/c_chdir3.c and c_chdirlist.c: changing directories in one step or name by name.
--
-- FTPChdir3 takes the path apart in the buffer of the connection, which a lost connection zeroes or
-- frees: a place in the path is an offset in `buf`, and is read there. Each step gives the result and
-- the caller's array; `keep` carries the array to the next step.
use libncftp.Base.{
  ℕ, zero, suc, ◌+◌, ◌-◌, Bool, true, false, not, ◌&&◌, ◌||◌, [], ◌∷◌, ◌++◌, List, Option, none,
  some, Bytes, codes, if◌then◌else◌, ◌==◌, leb, ℤ, pos, is_neg, int_eq, length, set, get_or, drop,
  c_string, strcmp_eq, split_first,
}
use libncftp.Conn.{Conn, M, ◌>>=◌, ◌>>◌, return, modify, fail_with, allocate, library_magic}
use libncftp.Conn.Errors.{
  k_no_err, k_err_bad_magic, k_err_bad_parameter, k_err_invalid_dir_param, k_err_malloc_failed,
}
use libncftp.Strn.{strncpy}
use libncftp.Command.{ftp_cmd}
use libncftp.Commands.Directory.{Destination, array, untouched, chdir, get_cwd, chdir_and_get_cwd}
use libncftp.Commands.Mkdir.{mkdir}

-- kChdirAndMkdir, kChdirAndGetCWD, kChdirOneSubdirAtATime and kChdirFullPath
pub record Flags : Type 0 where
  pub mkd : Bool
  pub pwd : Bool
  pub one : Bool
  pub ful : Bool

abbrev pub keep : Destination → Bytes → Destination
keep (array a) out = array out
keep to out = to

-- A step whose result alone matters.
abbrev pub plainly : Destination → M ℤ → M (ℤ × Bytes)
plainly to m = do result ← m; return (result, untouched to)

-- FTPChdirAndGetCWD, or FTPChdir.
unfoldable pub enter_dir : Bool → Bytes → Destination → M (ℤ × Bytes)
unfolding chdir chdir_and_get_cwd
enter_dir pwd dir to =
    if pwd then chdir_and_get_cwd (some dir) to else plainly to (chdir (some dir))

-- The step into one name; the empty name is the root.
unfoldable pub enter_name : Bool → Bytes → Destination → M (ℤ × Bytes)
unfolding enter_dir get_cwd
enter_name pwd [] to = enter_dir pwd (codes "/") to
enter_name pwd (b ∷ name) to =
    if strcmp_eq (b ∷ name) (codes ".")
    then (if pwd then get_cwd to else return (pos 0, untouched to))
    else enter_dir pwd (b ∷ name) to

-- `cip->errNo = result;`
abbrev pub note_error : Destination → ℤ → M (ℤ × Bytes)
note_error to result = plainly to (fail_with result)

-- MKD, and the second try, for a name that could not be entered.
unfoldable pub make_and_enter : Bool → ℤ → Bytes → Destination → M (ℤ × Bytes)
unfolding enter_dir
make_and_enter pwd result name to = do
  answer ← ftp_cmd (codes "MKD " ++ name)
  if int_eq answer (pos 2) then enter_dir pwd name to else note_error to result

-- The text in `cip->buf` at an offset; none if the buffer is gone or has no NUL there.
abbrev pub text_at : ℕ → Conn → Option Bytes
text_at at c = elim c.buf [ none ↦ none | some b ↦ c_string (drop at b) ]

abbrev pub put_nul : ℕ → M (Unit {0})
put_nul at =
    modify (λ c. record c { buf = elim c.buf [ none ↦ none | some b ↦ some (set b at 0) ] })

-- After a failed step: the name is read in the buffer again.
unfoldable pub recover : Flags → ℕ → ℤ → Destination → M (ℤ × Bytes)
unfolding make_and_enter c_string
recover flags at result to c =
    if flags.mkd
    then (elim (text_at at c) [
      | none ↦ none
      | some [] ↦ note_error to result c
      | some (b ∷ name) ↦ make_and_enter flags.pwd result (b ∷ name) to c
    ])
    else note_error to result c

-- One round of the loop, for the name that stands at an offset.
unfoldable pub enter_at : Flags → Bool → ℕ → Bytes → Destination → M (ℤ × Bytes)
unfolding enter_name recover
enter_at flags last at name to = do
  pair ← enter_name (last && flags.pwd) name to
  if is_neg pair.0 then recover flags at pair.0 (keep to pair.1) else return pair

-- The loop. `n` is more than the bytes that are left of the path.
unfoldable pub enter_each : Flags → ℕ → ℕ → Destination → M (ℤ × Bytes)
unfolding enter_at c_string split_first
enter_each flags zero at to c = none
enter_each flags (suc n) at to c = elim (text_at at c) [
  | none ↦ none
  | some text ↦ elim (split_first b'/' text) [
    | none ↦ enter_at flags true at text to c
    | some (before, _) ↦
        (do
          put_nul (at + length before)
          pair ← enter_at flags false at before to
          if int_eq pair.0 (pos 0)
              then enter_each flags n (at + length before + 1) (keep to pair.1)
              else return pair)
          c
  ]
]

-- The part of FTPChdir3 that goes name by name.
unfoldable pub one_at_a_time : Flags → Bytes → Destination → M (ℤ × Bytes)
unfolding enter_each get_cwd strncpy
one_at_a_time flags path to c = elim c.buf [
  | none ↦ some ((k_err_bad_parameter, untouched to), c)
  | some b ↦
      if leb (length b) 1
      then some ((k_err_bad_parameter, untouched to), c)
      else (elim (strncpy (set b (length b - 1) 0) path (length b)) [
        | none ↦ none
        | some b' ↦
            let c' = record c { buf = some b' } in
            if not (get_or b' (length b - 1) 0 == 0)
            then some ((k_err_bad_parameter, untouched to), c')
            else if strcmp_eq path [] || strcmp_eq path (codes ".")
            then (if flags.pwd then get_cwd to c' else some ((pos 0, untouched to), c'))
            else enter_each flags (suc (length b)) 0 to c'
      ])
]

-- The part that takes the whole path, first try: the error, or kNoErr.
unfoldable pub whole_path : Flags → Bytes → Destination → M (ℤ × Bytes)
unfolding enter_dir mkdir
whole_path flags path to = do
  pair ← enter_dir flags.pwd path to
  if int_eq pair.0 k_no_err
      then return pair
      else if flags.mkd
      then (do
        made ← mkdir (some path) true
        if int_eq made k_no_err then enter_dir flags.pwd path (keep to pair.1) else return pair)
      else return pair

-- FTPChdir3 behind its parameter checks.
unfoldable pub chdir3_steps : Flags → Bytes → Destination → M (ℤ × Bytes)
unfolding whole_path one_at_a_time
chdir3_steps flags path to =
    if flags.ful || not flags.one
    then (do
      pair ← whole_path flags path to
      if int_eq pair.0 k_no_err
          then return pair
          else if flags.one
          then one_at_a_time flags path (keep to pair.1)
          else return pair)
    else one_at_a_time flags path to

-- FTPChdir3
unfoldable pub chdir3 : Option Bytes → Destination → Flags → M (ℤ × Bytes)
unfolding chdir3_steps
chdir3 none to flags c =
    if strcmp_eq c.magic library_magic
    then note_error to k_err_invalid_dir_param c
    else some ((k_err_bad_magic, untouched to), c)
chdir3 (some path) to flags c =
    if strcmp_eq c.magic library_magic
    then chdir3_steps flags path to c
    else some ((k_err_bad_magic, untouched to), c)

-- The names with a slash between each two.
abbrev pub joined : List Bytes → Bytes
joined [] = []
joined (l ∷ []) = l
joined (l ∷ m ∷ ls) = l ++ (b'/' ∷ joined (m ∷ ls))

-- After a failed step of FTPChdirList: here the second try is FTPChdir.
unfoldable pub recover_name : Flags → ℤ → Bytes → Destination → M (ℤ × Bytes)
unfolding make_and_enter
recover_name flags result [] to = note_error to result
recover_name flags result (b ∷ name) to =
    if flags.mkd then make_and_enter false result (b ∷ name) to else note_error to result

unfoldable pub enter_line : Flags → Bool → Bytes → Destination → M (ℤ × Bytes)
unfolding enter_name recover_name
enter_line flags last name to = do
  pair ← enter_name (last && flags.pwd) name to
  if is_neg pair.0 then recover_name flags pair.0 name (keep to pair.1) else return pair

-- The loop of FTPChdirList.
unfoldable pub enter_lines : Flags → List Bytes → Destination → M (ℤ × Bytes)
unfolding enter_line
enter_lines flags [] to = return (k_no_err, untouched to)
enter_lines flags (l ∷ []) to = enter_line flags true l to
enter_lines flags (l ∷ m ∷ ls) to = do
  pair ← enter_line flags false l to
  if int_eq pair.0 k_no_err then enter_lines flags (m ∷ ls) (keep to pair.1) else return pair

-- Behind the first part of FTPChdirList.
unfoldable pub by_lines : Flags → List Bytes → Destination → M (ℤ × Bytes)
unfolding enter_lines
by_lines flags list to =
    if flags.one then enter_lines flags list to else return (k_err_bad_parameter, untouched to)

-- FTPChdirList
unfoldable pub chdir_list : List Bytes → Destination → Flags → M (ℤ × Bytes)
unfolding chdir3 by_lines
chdir_list list to flags =
    if flags.ful || not (flags.mkd || flags.pwd || flags.one)
    then (do
      ok ← allocate
      if ok
          then (do
            pair ← chdir3 (some (joined list)) to (record flags { one = false; ful = true })
            if int_eq pair.0 k_no_err then return pair else by_lines flags list (keep to pair.1))
          else plainly to (fail_with k_err_malloc_failed))
    else by_lines flags list to
