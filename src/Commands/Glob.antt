-- ===== src/Commands/Glob.antt =====
-- libncftp/rglob.c: FTPRemoteGlob, StripUnneccesaryGlobEntries and RemoteGlobCollapse.
--
-- The data connection is not modelled: FTPListToMemory2, which lists names over it, and
-- FTPPutFileFromMemory are any two functions of the connection, a record that is an argument. The
-- pattern is a `const char *`; a line list is the list of its lines. Each Dynsrecpy counts as one
-- request for memory, which may or may not be met. ISTRNEQ is strncasecmp.
pub mod Collapse
use libncftp.Base.{
  ℕ, zero, suc, ◌+◌, ◌-◌, Bool, true, false, not, ◌&&◌, ◌||◌, [], ◌∷◌, ◌++◌, List, Option, none,
  some, Bytes, codes, if◌then◌else◌, ◌==◌, leb, ℤ, pos, neg, is_neg, int_eq, length, drop, take,
  strcmp_eq, split_first, split_last,
}
use libncftp.Conn.{
  Conn, M, Availability, unknown, available, not_available, ◌>>=◌, ◌>>◌, then_do, return, modify,
  fail_with, allocate, check_magic, library_magic,
}
use libncftp.Conn.Errors.{
  k_no_err, k_err_bad_magic, k_err_bad_parameter, k_err_glob_failed, k_err_glob_no_match,
}
use libncftp.Reply.{add_line}
use libncftp.Commands.Facts.{is_not_available}
use libncftp.Paths.DotDot.{is_slash, path_contains_intermediate_dot_dot_sub_dir}

-- What the modelled code asks of the data connection.
pub record DataConnection : Type 0 where
  -- FTPListToMemory2 of a pattern, with flags for `ls`, without blank lines and without MLSD.
  pub list_to_memory : Bytes → Bytes → M (ℤ × List Bytes)
  -- FTPPutFileFromMemory of a name and a text.
  pub put_file_from_memory : Bytes → Bytes → M ℤ

-- What stands behind the last slash, or else the last backslash.
unfoldable pub last_name : Bytes → Bytes
unfolding split_last
last_name text = elim (split_last b'/' text) [
  | some (_, behind) ↦ behind
  | none ↦ elim (split_last b'\\' text) [ some (_, behind) ↦ behind | none ↦ text ]
]

-- StripUnneccesaryGlobEntries
unfoldable pub strip_unneccesary_glob_entries : List Bytes → List Bytes
unfolding last_name strcmp_eq
strip_unneccesary_glob_entries [] = []
strip_unneccesary_glob_entries (l ∷ ls) =
    let rest = strip_unneccesary_glob_entries ls in
    if strcmp_eq (last_name l) (codes ".") || strcmp_eq (last_name l) (codes "..")
    then rest
    else l ∷ rest

-- `tolower`
abbrev pub to_lower : ℕ → ℕ
to_lower c = if leb b'A' c && leb c b'Z' then c + 32 else c

-- `strncasecmp(a, b, n) == 0`
unfoldable pub strncasecmp_eq : ℕ → Bytes → Bytes → Bool
strncasecmp_eq zero _ _ = true
strncasecmp_eq (suc n) [] [] = true
strncasecmp_eq (suc n) (x ∷ xs) (y ∷ ys) =
    let rest = strncasecmp_eq n xs ys in if to_lower x == to_lower y then rest else false
strncasecmp_eq (suc n) _ _ = false

-- One of `kGlobChars`
abbrev pub is_glob_char : ℕ → Bool
is_glob_char c = c == b'[' || c == b'*' || c == b'?'

-- What stands before the first byte that passes the test; `strpbrk` finds that byte.
abbrev pub before_first : (ℕ → Bool) → Bytes → Bytes
before_first test [] = []
before_first test (c ∷ s) = let rest = before_first test s in if test c then [] else c ∷ rest

-- `strpbrk(s, …) != NULL`
abbrev pub any : (ℕ → Bool) → Bytes → Bool
any test [] = false
any test (c ∷ s) = let rest = any test s in if test c then true else rest

-- `(prev != NULL) && (STREQ(cur, prev))`
abbrev pub is_prev : Bytes → Option Bytes → Bool
is_prev cur none = false
is_prev cur (some prev) = strcmp_eq cur prev

-- A line that begins as the pattern does: `cur` is what stands behind the prefix, up to a slash. The
-- line is left out, or cut; `skip` and `go_on` are the rest of the loop.
unfoldable pub collapse_prefixed :
    Bytes → Bytes → Bool → List Bytes → M (List Bytes) → M (List Bytes) → M (List Bytes)
collapse_prefixed prefix cur omitted left skip go_on = do
  copied ← allocate
  if copied
      then (if omitted then skip else (do
        copied_again ← allocate
        if copied_again then (do rest ← go_on; return ((prefix ++ cur) ∷ rest)) else return left))
      else return left

-- A line without a slash that does not: it is put behind the pattern's directory, if there is one.
unfoldable pub collapse_plain : Option Bytes → Bytes → List Bytes → M (List Bytes) → M (List Bytes)
collapse_plain none l ls skip = do rest ← skip; return (l ∷ rest)
collapse_plain (some dir) l ls skip = do
  copied ← allocate
  if copied then (do rest ← skip; return ((dir ++ l) ∷ rest)) else return (l ∷ ls)

-- The loop of RemoteGlobCollapse. Where there is no memory, the rest of the list stays as it is.
unfoldable pub collapse_lines : Bytes → Option Bytes → Option Bytes → List Bytes → M (List Bytes)
unfolding strncasecmp_eq strcmp_eq path_contains_intermediate_dot_dot_sub_dir collapse_prefixed
    collapse_plain
collapse_lines prefix dir prev [] = return []
collapse_lines prefix dir prev (l ∷ ls) =
    let behind = drop (length prefix) l in
    let cur = before_first is_slash behind in
    if strncasecmp_eq (length prefix) l prefix
    then collapse_prefixed prefix cur
        (is_prev cur prev || path_contains_intermediate_dot_dot_sub_dir behind) (l ∷ ls)
        (collapse_lines prefix dir prev ls) (collapse_lines prefix dir (some cur) ls)
    else if any is_slash l
    then collapse_lines prefix dir prev ls
    else collapse_plain dir l ls (collapse_lines prefix dir prev ls)

-- `patDir`: the pattern up to its last slash, if it has one.
abbrev pub pattern_dir : Bytes → Option Bytes
pattern_dir pattern = elim (split_last b'/' pattern) [
  | none ↦ none
  | some (before, _) ↦ some (before ++ (b'/' ∷ []))
]

-- `patPrefix`
abbrev pub pattern_prefix : Bytes → Bytes
pattern_prefix pattern = before_first is_glob_char pattern

-- RemoteGlobCollapse from the copy for `patPrefix` on.
unfoldable pub collapse_with : Option Bytes → Bytes → List Bytes → M (List Bytes)
unfolding collapse_lines
collapse_with dir pattern list = do
  copied ← allocate
  if copied then collapse_lines (pattern_prefix pattern) dir none list else return list

-- RemoteGlobCollapse from the copy for `patDir` on.
unfoldable pub collapse_in : Option Bytes → Bytes → List Bytes → M (List Bytes)
unfolding collapse_with
collapse_in none pattern list = collapse_with none pattern list
collapse_in (some dir) pattern list = do
  copied ← allocate
  if copied then collapse_with (some dir) pattern list else return list

-- RemoteGlobCollapse
unfoldable pub remote_glob_collapse : Bytes → List Bytes → M (List Bytes)
unfolding collapse_in split_last
remote_glob_collapse pattern list = collapse_in (pattern_dir pattern) pattern list

-- The end of FTPRemoteGlob on a listing of more than one line, or of one that is no error message.
unfoldable pub filtered : Bytes → List Bytes → M (ℤ × List Bytes)
unfolding remote_glob_collapse strip_unneccesary_glob_entries
filtered pattern list = do
  list ← remote_glob_collapse pattern (strip_unneccesary_glob_entries list)
  return (k_no_err, list)

-- `glberr(a)` on the only line of the listing, from its first colon on.
abbrev pub glob_error : Bytes → Bytes → Bool
glob_error text line = elim (split_first b':' line) [
  | none ↦ false
  | some (_, behind) ↦ strncasecmp_eq (length text) (b':' ∷ behind) text
]

-- What FTPRemoteGlob does with a listing.
unfoldable pub use_listing : Bytes → List Bytes → M (ℤ × List Bytes)
unfolding filtered strncasecmp_eq split_first
use_listing pattern [] = do e ← fail_with k_err_glob_no_match; return (e, [])
use_listing pattern (l ∷ []) =
    if glob_error (codes ": No such file or directory") l
    then (do e ← fail_with k_err_glob_failed; return (e, []))
    else if glob_error (codes ": No match") l
    then (do e ← fail_with k_err_glob_no_match; return (e, l ∷ []))
    else filtered pattern (l ∷ [])
use_listing pattern (l ∷ m ∷ ls) = filtered pattern (l ∷ m ∷ ls)

-- The listing, and a second try without `-a`.
unfoldable pub listing : DataConnection → Bytes → Bytes → M (ℤ × List Bytes)
listing net pattern [] = net.list_to_memory pattern []
listing net pattern (f ∷ flags) = do
  pair ← net.list_to_memory pattern (f ∷ flags)
  if is_neg pair.0
      then (do modify (λ c. record c { has_nlst_a = not_available }); net.list_to_memory pattern [])
      else return pair

-- "*" and "**" are NLST without a pattern, with `-a` unless the server is known to refuse it.
abbrev pub is_star : Bytes → Bool
is_star pattern = strcmp_eq pattern (codes "*") || strcmp_eq pattern (codes "**")

-- The listing of what is asked for, and what is made of it.
unfoldable pub glob_asked : DataConnection → Bytes → Bytes → M (ℤ × List Bytes)
unfolding listing use_listing
glob_asked net asked flags = do
  pair ← listing net asked flags
  if is_neg pair.0 then return pair else use_listing asked pair.1

-- FTPRemoteGlob on a pattern with a wildcard.
unfoldable pub glob_remotely : DataConnection → Bytes → M (ℤ × List Bytes)
unfolding glob_asked strcmp_eq
glob_remotely net pattern c =
    if is_star pattern
    then glob_asked net [] (if is_not_available c.has_nlst_a then [] else codes "-a") c
    else glob_asked net pattern [] c

-- FTPRemoteGlob; `do_glob` is `doGlob == 1`.
unfoldable pub remote_glob : DataConnection → Option Bytes → Bool → M (ℤ × List Bytes)
unfolding glob_remotely add_line
remote_glob net none do_glob c =
    some ((if strcmp_eq c.magic library_magic then k_err_bad_parameter else k_err_bad_magic, []), c)
remote_glob net (some []) do_glob c =
    some ((if strcmp_eq c.magic library_magic then k_err_bad_parameter else k_err_bad_magic, []), c)
remote_glob net (some (b ∷ pattern)) do_glob c =
    if strcmp_eq c.magic library_magic
    then (if do_glob && any is_glob_char (b ∷ pattern)
        then glob_remotely net (b ∷ pattern) c
        else (let (list, c') = add_line [] (b ∷ pattern) c in some ((k_no_err, list), c')))
    else some ((k_err_bad_magic, []), c)
