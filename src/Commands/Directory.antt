-- ===== src/Commands/Directory.antt =====
-- libncftp/c_chdir.c and c_getcwd.c: the current directory on the server and its cache.
--
-- `cip->currentWorkingDirectory` is a buffer whose length is `currentWorkingDirectorySize`, which
-- FTPInitConnectionInfo2 makes kDefaultPathBufSize; the writes to its first and last but one byte take
-- it to have two. The destination `newCwd` of a command is NULL, that buffer, or an array of the
-- caller's, whose size is passed with it; a command gives back the array after its writes.
pub mod Pwd
pub mod Cache
use libncftp.Base.{
  ℕ, zero, suc, ◌+◌, ◌-◌, Bool, true, false, not, ◌||◌, [], ◌∷◌, ◌++◌, List, Option, none, some,
  Bytes, codes, if◌then◌else◌, ◌==◌, ltb, ℤ, pos, is_neg, int_eq, length, set, get_or, cstr,
  strcmp_eq, split_first, split_last,
}
use libncftp.Conn.{
  Conn, M, ◌>>=◌, ◌>>◌, return, modify, gets, fault, fail_with, check_magic, library_magic,
}
use libncftp.Conn.Errors.{
  k_no_err, k_err_invalid_dir_param, k_err_malloc_failed, k_err_pwd_failed, k_err_cwd_failed,
  k_err_path_too_long, k_err_bad_magic,
}
use libncftp.Strn.{strncpy}
use libncftp.Reply.{Response, init_response, done_with_response}
use libncftp.Command.{ftp_cmd, r_cmd}

pub data Destination : Type 0 where
  nowhere cache : Destination
  array : Bytes → Destination

-- `if (cip->currentWorkingDirectory != NULL) cip->currentWorkingDirectory[0] = '\0';`
abbrev pub invalidate : Option Bytes → Option Bytes
invalidate none = none
invalidate (some b) = some (set b 0 0)

abbrev pub forget_cwd : M (Unit {0})
forget_cwd = modify (λ c. record c { cwd = invalidate c.cwd })

-- The command that FTPChdir sends for a path that is not empty.
unfoldable pub cd_command : Bytes → Bytes
cd_command dir = if strcmp_eq dir (codes "..") then codes "CDUP" else codes "CWD " ++ dir

-- The end of FTPChdir, on a result that is not negative.
unfoldable pub chdir_result : ℤ → M ℤ
chdir_result result =
    if is_neg result
    then return result
    else if int_eq result (pos 2)
    then (forget_cwd >> return k_no_err)
    else fail_with k_err_cwd_failed

-- FTPChdir. The empty path counts as done.
unfoldable pub chdir : Option Bytes → M ℤ
unfolding cd_command chdir_result
chdir none = check_magic (fail_with k_err_invalid_dir_param)
chdir (some []) = check_magic (chdir_result (pos 2))
chdir (some (b ∷ dir)) =
    check_magic (do result ← ftp_cmd (cd_command (b ∷ dir)); chdir_result result)

-- `Strncpy(newCwd, text, newCwdSize)` where `newCwd` is not the cache.
unfoldable pub copy_out : Destination → Bytes → M Bytes
copy_out (array a) text c = elim (strncpy a text (length a)) [ none ↦ none | some b ↦ some (b, c) ]
copy_out _ text c = some ([], c)

-- The same into the cache, if there is one.
unfoldable pub copy_cache : Option Bytes → Bytes → M (Unit {0})
copy_cache none text c = some (tt, c)
copy_cache (some a) text c = elim (strncpy a text (length a)) [
  | none ↦ none
  | some b ↦ some (tt, record c { cwd = some b })
]

-- What the caller's array holds if nothing is copied.
abbrev pub untouched : Destination → Bytes
untouched (array a) = a
untouched _ = []

-- The directory in the text of a reply to PWD: what stands between the first and the last double
-- quote, or, where there is none, before the first space.
unfoldable pub pwd_text : Bytes → Option Bytes
pwd_text text = elim (split_last b'"' text) [
  | some (before, _) ↦ elim (split_first b'"' before) [
    | some (_, inside) ↦ some inside
    | none ↦ none
  ]
  | none ↦ elim (split_first b' ' text) [ some (before, _) ↦ some before | none ↦ none ]
]

-- The directory in the text of a reply to CWD: the text must begin with a double quote.
unfoldable pub cwd_text : Bytes → Option Bytes
cwd_text [] = none
cwd_text (b ∷ text) =
    if b == b'"'
    then (elim (split_last b'"' text) [ some (inside, _) ↦ some inside | none ↦ none ])
    else none

-- Both copies of a directory that was found; without one nothing is copied.
unfoldable pub store_cwd : Destination → Option Bytes → M Bytes
store_cwd to none c = some (untouched to, c)
store_cwd to (some dir) c = (copy_cache c.cwd dir >> copy_out to dir) c

-- `cwd[0] = '\0'; cwd[size - 2] = '\0';` before a reply to PWD is looked at.
abbrev pub blank : Option Bytes → Option Bytes
blank none = none
blank (some b) = some (set (set b 0 0) (length b - 2) 0)

-- `p[size - 2] != '\0'`; NULL, and a buffer of fewer than two bytes, are a fault.
unfoldable pub truncated : Option Bytes → Option Bool
truncated none = none
truncated (some b) = if ltb (length b) 2 then none else some (not (get_or b (length b - 2) 0 == 0))

-- The destination as the pointer that it is.
abbrev pub pointee : Destination → Bytes → Option Bytes → Option Bytes
pointee nowhere out cwd = none
pointee cache out cwd = cwd
pointee (array a) out cwd = some out

-- The last test of FTPGetCWD: a path that fills its buffer was cut.
unfoldable pub check_length : Destination → ℤ → Bytes → M (ℤ × Bytes)
check_length to result out c =
    if int_eq result k_no_err
    then (elim (truncated c.cwd) [
      | none ↦ none
      | some long ↦
          let c' = if long then record c { cwd = invalidate c.cwd } else c in
          elim (truncated (pointee to out c'.cwd)) [
            | none ↦ none
            | some long' ↦ some (
              (
                if long
                    then k_err_path_too_long
                    else if long'
                    then k_err_path_too_long
                    else k_no_err,
                out,
              ),
              c',
            )
          ]
    ])
    else some ((result, out), c)

-- What FTPGetCWD does with the reply to PWD. A reply with no line is read through NULL.
unfoldable pub use_pwd : Destination → ℤ → List Bytes → M (ℤ × Bytes)
use_pwd to result msg = do
  modify (λ c. record c { cwd = blank c.cwd })
  if int_eq result (pos 2)
      then (elim msg [
        | [] ↦ fault
        | text ∷ _ ↦ do out ← store_cwd to (pwd_text text); return (k_no_err, out)
      ])
      else if is_neg result || int_eq result (pos 0)
      then return (result, untouched to)
      else (do e ← fail_with k_err_pwd_failed; return (e, untouched to))

-- The exchange of FTPGetCWD.
unfoldable pub ask_pwd : Destination → M (ℤ × Bytes)
ask_pwd to = do
  rp ← init_response
  elim rp [
    | none ↦ do e ← fail_with k_err_malloc_failed; return (e, untouched to)
    | some rp ↦ do
      answer ← r_cmd rp (codes "PWD")
      pair ← use_pwd to answer.0 answer.1.msg
      modify (done_with_response (some answer.1))
      return pair
  ]

-- PWD, and the last test.
abbrev pub ask_and_check : Destination → M (ℤ × Bytes)
ask_and_check to = do pair ← ask_pwd to; check_length to pair.0 pair.1

-- FTPGetCWD for a cache with the given content: it is used unless it is NULL or empty.
unfoldable pub get_cwd_with : Destination → Option Bytes → M (ℤ × Bytes)
get_cwd_with to none = ask_and_check to
get_cwd_with to (some b) =
    if get_or b 0 0 == 0
    then ask_and_check to
    else (do out ← copy_out to (cstr b); check_length to k_no_err out)

-- `cip->errNo = kErrInvalidDirParam; return (kErrInvalidDirParam);`
abbrev pub invalid_dir : Destination → M (ℤ × Bytes)
invalid_dir to = do e ← fail_with k_err_invalid_dir_param; return (e, untouched to)

-- FTPGetCWD behind its parameter checks, which are on the destination.
unfoldable pub get_cwd_to : Destination → Option Bytes → M (ℤ × Bytes)
unfolding get_cwd_with
get_cwd_to to none c = invalid_dir to c
get_cwd_to to (some []) c = invalid_dir to c
get_cwd_to to (some (_ ∷ _)) c = get_cwd_with to c.cwd c

-- FTPGetCWD: the result, and the caller's array.
unfoldable pub get_cwd : Destination → M (ℤ × Bytes)
unfolding get_cwd_to
get_cwd to c =
    if strcmp_eq c.magic library_magic
    then get_cwd_to to (pointee to (untouched to) c.cwd) c
    else some ((k_err_bad_magic, untouched to), c)

-- The reply to CWD or CDUP in FTPChdirAndGetCWD: a quoted directory in it saves the PWD. `none` for
-- the array where PWD has to be asked.
unfoldable pub use_cwd : Destination → ℤ → List Bytes → M (ℤ × Option Bytes)
use_cwd to result msg =
    if int_eq result (pos 2)
    then (elim msg [
      | [] ↦ (do forget_cwd; fault)
      | text ∷ _ ↦ (do
        forget_cwd
        elim (cwd_text text) [
          | none ↦ return (k_no_err, none)
          | some dir ↦ do out ← store_cwd to (some dir); return (k_no_err, some out)
        ])
    ])
    else if is_neg result || int_eq result (pos 0)
    then return (result, some (untouched to))
    else (do e ← fail_with k_err_cwd_failed; return (e, some (untouched to)))

unfoldable pub chdir_and_ask : Destination → Bytes → M (ℤ × Bytes)
chdir_and_ask to dir = do
  rp ← init_response
  elim rp [
    | none ↦ do e ← fail_with k_err_malloc_failed; return (e, untouched to)
    | some rp ↦ do
      answer ← r_cmd rp (cd_command dir)
      pair ← use_cwd to answer.0 answer.1.msg
      modify (done_with_response (some answer.1))
      elim pair.1 [ none ↦ get_cwd to | some out ↦ return (pair.0, out) ]
  ]

-- FTPChdirAndGetCWD behind its parameter checks, which are on the destination.
unfoldable pub chdir_and_get_cwd_to : Option Bytes → Destination → Option Bytes → M (ℤ × Bytes)
unfolding chdir_and_ask
chdir_and_get_cwd_to dir to none = invalid_dir to
chdir_and_get_cwd_to none to (some _) = invalid_dir to
chdir_and_get_cwd_to (some []) to (some _) = get_cwd to
chdir_and_get_cwd_to (some (b ∷ dir)) to (some _) = chdir_and_ask to (b ∷ dir)

-- FTPChdirAndGetCWD: the result, and the caller's array.
unfoldable pub chdir_and_get_cwd : Option Bytes → Destination → M (ℤ × Bytes)
unfolding chdir_and_get_cwd_to
chdir_and_get_cwd dir to c =
    if strcmp_eq c.magic library_magic
    then chdir_and_get_cwd_to dir to (pointee to (untouched to) c.cwd) c
    else some ((k_err_bad_magic, untouched to), c)
