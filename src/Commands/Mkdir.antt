-- ===== src/Commands/Mkdir.antt =====
-- libncftp/c_mkdir.c: FTPMkdir2, FTPMkdir and FTPMkParentDir.
--
-- The arrays `dir` and `dir2` have 512 bytes; STRNCPY cuts a longer text. Where the code puts a NUL
-- over a delimiter and reads the text before it, the model takes the text apart.
use libncftp.Base.{
  ℕ, zero, suc, Bool, true, false, ◌||◌, [], ◌∷◌, ◌++◌, Option, none, some, Bytes, codes,
  if◌then◌else◌, ◌==◌, ltb, ℤ, pos, is_neg, int_eq, length, take, drop, split_first, split_last,
}
use libncftp.Conn.{M, ◌>>=◌, ◌>>◌, return, fault, fail_with, check_magic}
use libncftp.Conn.Errors.{
  k_no_err, k_err_invalid_dir_param, k_err_mkd_failed, k_err_cannot_go_to_prev_dir,
}
use libncftp.Command.{ftp_cmd}
use libncftp.Paths.DotDot.{is_slash}
use libncftp.Commands.Directory.{chdir}
use libncftp.Commands.Buf.{go_back, note_cwd, already_there, make_one}

-- The text without the slashes at its end. A text of slashes only leaves `cp` in front of the array.
unfoldable pub strip_slashes : Bytes → Option Bytes
strip_slashes [] = none
strip_slashes (b ∷ s) = elim (strip_slashes s) [
  | some t ↦ some (b ∷ t)
  | none ↦ if is_slash b then none else some (b ∷ [])
]

-- `strrchr(dir, b) == dir`
abbrev pub last_is_first : Option (Bytes × Bytes) → Bool
last_is_first none = false
last_is_first (some ([], behind)) = true
last_is_first (some (_ ∷ _, behind)) = false

-- `(strrchr(dir, '/') == dir) || (strrchr(dir, '\\') == dir)`
unfoldable pub in_root : Bytes → Bool
unfolding split_last
in_root dir = last_is_first (split_last b'/' dir) || last_is_first (split_last b'\\' dir)

-- The last delimiter: a slash, or else a backslash.
unfoldable pub split_delim : Bytes → Option (Bytes × Bytes)
unfolding split_last
split_delim dir = elim (split_last b'/' dir) [
  | some (before, behind) ↦ some (before, behind)
  | none ↦ split_last b'\\' dir
]

-- The first delimiter in the same way, with the delimiter.
unfoldable pub split_next : Bytes → Option (ℕ × Bytes × Bytes)
unfolding split_first
split_next s = elim (split_first b'/' s) [
  | some (before, behind) ↦ some (b'/', before, behind)
  | none ↦ elim (split_first b'\\' s) [
    | some (before, behind) ↦ some (b'\\', before, behind)
    | none ↦ none
  ]
]

-- How the search for a parent that exists ends: a result, or the length of the text before the
-- first directory to make.
pub data Parent : Type 0 where
  no_parent : ℤ → Parent
  parent : ℕ → Parent

-- One round of the first loop, on the text that is left of `dir` and its last delimiter.
unfoldable pub try_parent : (Bytes → M Parent) → Bytes → Option (Bytes × Bytes) → M Parent
unfolding chdir
try_parent next_round [] none = do e ← fail_with k_err_mkd_failed; return (no_parent e)
try_parent next_round (_ ∷ _) none = return (parent 0)
try_parent next_round dir (some ([], behind)) = do
  e ← fail_with k_err_mkd_failed
  return (no_parent e)
try_parent next_round dir (some (b ∷ before, behind)) = do
  result ← chdir (some (b ∷ before))
  if int_eq result (pos 0)
      then return (parent (suc (length (b ∷ before))))
      else next_round (b ∷ before)

-- The first loop. `n` bounds its rounds by the text's length.
unfoldable pub find_parent : ℕ → Bytes → M Parent
unfolding split_delim try_parent
find_parent zero dir c = none
find_parent (suc n) dir c = try_parent (find_parent n) dir (split_delim dir) c

-- How the second loop ends: at a `return`, or at the label `goback`.
pub data Made : Type 0 where
  gave_up : ℤ → Made
  made : ℤ → Made

-- MKD in the second loop, with what follows if it is done.
unfoldable pub make_step : Bytes → M Made → M Made
make_step path next = do
  result ← ftp_cmd (codes "MKD " ++ path)
  if is_neg result
      then return (gave_up result)
      else if int_eq result (pos 2)
      then next
      else (do e ← fail_with k_err_mkd_failed; return (made e))

-- One round of the second loop: `done` is the path made so far, with its delimiter, and `s` what is
-- behind, with its first delimiter.
unfoldable pub make_next :
    (Bytes → Bytes → M Made) → Bytes → Bytes → Option (ℕ × Bytes × Bytes) → M Made
unfolding make_step
make_next next_round done s none = make_step (done ++ s) (return (made k_no_err))
make_next next_round done s (some (delim, before, [])) = return (made k_no_err)
make_next next_round done s (some (delim, before, b ∷ behind)) =
    make_step (done ++ before) (next_round (done ++ before ++ (delim ∷ [])) (b ∷ behind))

-- The second loop. `n` bounds its rounds by the text's length.
unfoldable pub make_each : ℕ → Bytes → Bytes → M Made
unfolding split_next make_next
make_each zero done s c = none
make_each (suc n) done s c = make_next (make_each n) done s (split_next s) c

-- The label `goback`.
unfoldable pub make_and_go_back : Option Bytes → Made → M ℤ
unfolding go_back
make_and_go_back cur_dir (gave_up e) = return e
make_and_go_back cur_dir (made result) = do
  result2 ← go_back cur_dir
  if int_eq result (pos 0)
      then (if is_neg result2 then fail_with k_err_cannot_go_to_prev_dir else return result)
      else return result

-- "Special case mkdir /subdir"
unfoldable pub make_in_root : Bytes → M ℤ
make_in_root dir = do
  result ← ftp_cmd (codes "MKD " ++ dir)
  if is_neg result
      then return result
      else if int_eq result (pos 2)
      then return k_no_err
      else fail_with k_err_mkd_failed

-- Behind the first loop.
unfoldable pub make_from : Option Bytes → Bytes → Parent → M ℤ
unfolding make_each make_and_go_back
make_from cur_dir dir (no_parent e) = return e
make_from cur_dir dir (parent n) = do
  end ← make_each (suc (length dir)) [] (drop n dir)
  make_and_go_back cur_dir end

-- The recursive branch, for a path without the slashes at its end.
unfoldable pub make_path : Option Bytes → Bytes → M ℤ
unfolding in_root find_parent make_from make_in_root
make_path cur_dir dir =
    if in_root dir
    then make_in_root dir
    else (do found ← find_parent (suc (length dir)) dir; make_from cur_dir dir found)

-- The recursive branch.
unfoldable pub make_tree : Option Bytes → Bytes → M ℤ
unfolding strip_slashes make_path
make_tree cur_dir new_dir = elim (strip_slashes (take 511 new_dir)) [
  | none ↦ fault
  | some dir ↦ make_path cur_dir dir
]

-- FTPMkdir2 behind its parameter checks.
unfoldable pub mkdir_steps : Bool → Option Bytes → Bytes → M ℤ
unfolding note_cwd already_there make_one make_tree
mkdir_steps recurse cur_dir new_dir = do
  note_cwd cur_dir
  result ← chdir (some new_dir)
  if int_eq result k_no_err
      then already_there cur_dir
      else if recurse
      then make_tree cur_dir new_dir
      else make_one new_dir

-- FTPMkdir2
unfoldable pub mkdir2 : Option Bytes → Bool → Option Bytes → M ℤ
unfolding mkdir_steps
mkdir2 none recurse cur_dir = check_magic (fail_with k_err_invalid_dir_param)
mkdir2 (some []) recurse cur_dir = check_magic (fail_with k_err_invalid_dir_param)
mkdir2 (some (b ∷ dir)) recurse cur_dir = check_magic (mkdir_steps recurse cur_dir (b ∷ dir))

-- FTPMkdir
unfoldable pub mkdir : Option Bytes → Bool → M ℤ
unfolding mkdir2
mkdir new_dir recurse = mkdir2 new_dir recurse none

-- The text without the slashes that end it.
abbrev pub trim_slashes : Bytes → Bytes
trim_slashes [] = []
trim_slashes (b ∷ s) = elim (trim_slashes s) [
  | [] ↦ if b == b'/' then [] else b ∷ []
  | c ∷ t ↦ b ∷ c ∷ t
]

-- StrRemoveTrailingSlashes: the first byte is kept.
unfoldable pub str_remove_trailing_slashes : Bytes → Bytes
str_remove_trailing_slashes [] = []
str_remove_trailing_slashes (b ∷ s) = b ∷ trim_slashes s

-- FTPMkParentDir, which does not look at the magic.
unfoldable pub mk_parent_dir : Option Bytes → Bool → Option Bytes → M ℤ
unfolding str_remove_trailing_slashes split_last mkdir2
mk_parent_dir none recurse cur_dir = fail_with k_err_invalid_dir_param
mk_parent_dir (some []) recurse cur_dir = fail_with k_err_invalid_dir_param
mk_parent_dir (some (b ∷ path)) recurse cur_dir =
    if ltb 511 (length (b ∷ path))
    then fail_with k_err_invalid_dir_param
    else (elim (split_last b'/' (str_remove_trailing_slashes (b ∷ path))) [
      | none ↦ return k_no_err
      | some (before, _) ↦ elim before [
        | [] ↦ return k_no_err
        | d ∷ dir ↦ mkdir2 (some (d ∷ dir)) recurse cur_dir
      ]
    ])
