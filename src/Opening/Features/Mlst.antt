-- ===== src/Opening/Features/Mlst.antt =====
-- libncftp/open.c, FTPExamineMlstFeatures: the facts of MLST that a server has.
use libncftp.Base.{
  ℕ, suc, ◌+◌, Bool, ◌&&◌, ◌||◌, List, [], ◌∷◌, some, Bytes, codes, leb, ◌==◌, if◌then◌else◌,
  length, take, drop,
}
use libncftp.Conn.{Conn}
use libncftp.Strn.Token.Pieces.{all_strtokc}
use libncftp.Commands.Glob.{strncasecmp_eq}
use libncftp.Commands.Probe.{has_bit}

-- `isspace`
abbrev pub is_space : ℕ → Bool
is_space c = c == b' ' || (leb 9 c && leb c 13)

abbrev pub skip_spaces : Bytes → Bytes
skip_spaces [] = []
skip_spaces (c ∷ s) = let rest = skip_spaces s in if is_space c then rest else c ∷ s

-- `ISTRNCMP(cp, word, length) == 0`
abbrev pub begins : Bytes → Bytes → Bool
begins word cp = strncasecmp_eq (length word) cp word

-- `ISTREQ(a, b)`
abbrev pub is_word : Bytes → Bytes → Bool
is_word word a = strncasecmp_eq (suc (length word)) a word

-- `flags |= bit`
abbrev pub with_bit : ℕ → ℕ → ℕ
with_bit bit flags = if has_bit bit flags then flags else flags + bit

-- The facts that are known by name, each with its bit. "UNIX.gid" is looked for twice, and "unique",
-- whose bit is 0o1000, never.
abbrev pub fact_bit : Bytes → ℕ
fact_bit feat =
    if is_word (codes "type") feat
    then 1
    else if is_word (codes "size") feat
    then 2
    else if is_word (codes "modify") feat
    then 4
    else if is_word (codes "UNIX.mode") feat
    then 8
    else if is_word (codes "UNIX.owner") feat
    then 16
    else if is_word (codes "UNIX.group") feat
    then 32
    else if is_word (codes "perm") feat
    then 64
    else if is_word (codes "UNIX.uid") feat
    then 128
    else if is_word (codes "UNIX.gid") feat
    then 256
    else 0

abbrev pub add_fact : ℕ → ℕ → ℕ
add_fact bit flags = if bit == 0 then flags else with_bit bit flags

-- The facts in the list of them, one for each call of strtokc.
abbrev pub mls_flags : ℕ → List Bytes → ℕ
mls_flags flags [] = flags
mls_flags flags (feat ∷ feats) =
    mls_flags (add_fact (fact_bit (if begins (codes "OS.") feat then drop 3 feat else feat)) flags)
      feats

-- FTPExamineMlstFeatures
unfoldable pub examine_mlst_features : Bytes → Conn → Conn
unfolding all_strtokc strncasecmp_eq
examine_mlst_features features c =
    let buf = take 255 features in
    record c { mls_features = mls_flags 0 (all_strtokc (codes ";*") (suc (length buf)) (some buf)) }
