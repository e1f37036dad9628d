-- ===== src/Tests/Strings.antt =====
-- The string, path and URL routines on concrete buffers.
use libncftp.Base.{
  List, neg, ℕ, ◌+◌, ◌-◌, ◌*◌, ◌/◌, ◌%◌, ◌<◌, ◌≤◌, Bool, true, false, [], ◌∷◌, ◌++◌, Option, none,
  some, Bytes, codes, pos, ◌≡◌, ◌≢◌, ◌↔◌, refl, arith, length, take, drop, replicate, if◌then◌else◌,
  ltb, strcmp_eq, ap,
}
use libncftp.Strn.{strncpy}
use libncftp.Strn.Copy.{padded, strncpy_in_bounds}
use libncftp.Strn.Token.{scan, strtok, strntok, strtokc, strntokc}
use libncftp.Strn.Token.Pieces.{
  pieces, words, all_strtok, all_strtokc, all_strtok-pieces, all_strtokc-words,
}
use libncftp.Strn.Token.Bounds.{or_empty, strntok-strtok, strntokc-strtokc}
use libncftp.Commands.AsciiSize.{local_ascii_file_size}
use libncftp.Commands.AsciiSize.Laws.{to_network, reads_of, bytes_of, local_ascii_file_size_lem}
use libncftp.Paths.Build.{path_build}
use libncftp.Paths.Build.Laws.{path_build_lem}
use libncftp.Paths.DotDot.{path_contains_intermediate_dot_dot_sub_dir}
use libncftp.Paths.DotDot.Laws.{
  any_dot_dot, names_of, path_contains_intermediate_dot_dot_sub_dir_lem,
}
use libncftp.Paths.Url.{url_copy_token}
use libncftp.Paths.Url.Laws.{
  hex_digit, hex, Spelling, itself, escaped, text_of, encode, url_copy_token-encode,
  url_copy_token_overflows,
}

strncpy_in_bounds_example : (strncpy (replicate 3 1) (codes "ab") 5 ≢ none) ↔ ((0 < 3) × (5 ≤ 3))
strncpy_in_bounds_example = strncpy_in_bounds (replicate 3 1) (codes "ab") 5

all_strtok-pieces_example :
    all_strtok (codes "/") 9 (some (codes "a//b/")) ≡ pieces (codes "/") (codes "a//b/")
all_strtok-pieces_example = all_strtok-pieces (codes "/") 9 (codes "a//b/") (ground arith)

all_strtokc-words_example :
    all_strtokc (codes "/") 9 (some (codes "/a//b/")) ≡ words (pieces (codes "/") (codes "/a//b/"))
all_strtokc-words_example = all_strtokc-words (codes "/") 9 (codes "/a//b/") (ground arith)

strntok-strtok_example :
    (strntok (codes "/") (replicate 4 1) 3 (some (codes "abcd/e")) none
      ≡ some (
        padded 2 (scan (codes "/") (codes "abcd/e")).0 (replicate 4 1),
        pos (length (take 2 (scan (codes "/") (codes "abcd/e")).0)),
        (scan (codes "/") (codes "abcd/e")).1,
      ))
    × (strtok (codes "/") (some (codes "abcd/e")) none
        ≡ (some (scan (codes "/") (codes "abcd/e")).0, (scan (codes "/") (codes "abcd/e")).1))
strntok-strtok_example =
    strntok-strtok (codes "/") (replicate 4 1) 2 (codes "abcd/e") none (ground arith)

not_here : strcmp_eq (codes "ab") (codes ".") ≡ false
unfolding strcmp_eq
not_here = refl

not_root : strcmp_eq (codes "ab") (codes "/") ≡ false
unfolding strcmp_eq
not_root = refl

path_build_lem_example :
    path_build (replicate 9 1) 9 b'/' (some (codes "ab")) (some (codes "cde"))
    ≡ some (
      pos (length (codes "ab/cde")),
      (codes "ab/cde" ++ replicate (9 - length (codes "ab/cde")) 0, some (length (codes "ab/cde"))),
    )
path_build_lem_example =
    path_build_lem (replicate 9 1) (codes "b") (codes "de") b'a' b'c' b'/' 8 refl (ground arith)
      (ground arith) not_here not_root (ground arith) (ground arith)

-- A hexadecimal digit's value.
abbrev hex_value : ℕ → ℕ
hex_value c = if ltb c 58 then c - 48 else if ltb c 71 then c - 55 else c - 87

-- In place of `sscanf(h, "%x", &hc)`, for two digits.
abbrev scan_two : Bytes → Option ℕ
scan_two (x ∷ y ∷ []) = some (hex_value x * 16 + hex_value y)
scan_two _ = none

hex_value-hex_digit : (u : Bool) (d : ℕ) → d < 16 → hex_value (hex_digit u d) ≡ d
hex_value-hex_digit u d h = ground arith

scan_two-hex : (u v : Bool) (b : ℕ) → b < 256 → scan_two (hex u v b) ≡ some b
scan_two-hex u v b h =
    rw
      (
        hex_value-hex_digit u (b / 16) (omega (arith, h)),
        hex_value-hex_digit v (b % 16) (omega arith),
      )
      (ap some (omega arith))

-- "a%2Fb%2f" for "a/b/".
abbrev spelled : List (ℕ × Spelling)
spelled =
    (b'a', itself) ∷ (b'/', escaped true true) ∷ (b'b', itself) ∷ (b'/', escaped false false) ∷ []

url_copy_token-encode_example :
    url_copy_token scan_two
      (replicate 6 1)
      6
      (encode spelled ++ codes "/x")
      (length (encode spelled))
    ≡ some (text_of spelled ++ (0 ∷ drop 5 (replicate 6 1)))
url_copy_token-encode_example =
    url_copy_token-encode scan_two scan_two-hex spelled (codes "/x") (replicate 6 1) (ground arith)
      (ground arith)

url_copy_token_overflows_example :
    url_copy_token scan_two (replicate 3 1) 3 (codes "abcd" ++ codes "/x") (length (codes "abcd"))
    ≡ none
url_copy_token_overflows_example =
    url_copy_token_overflows scan_two (codes "abcd") (codes "/x") (replicate 3 1) 3 (ground arith)
      (ground arith) (ground arith)

strntokc-strtokc_example :
    strntokc (replicate 4 1) 3 (some (codes "/abcd/e")) (some (codes "/")) none
    ≡ some (
      padded 2
          (or_empty (strtokc (some (codes "/abcd/e")) (some (codes "/")) none).0)
          (replicate 4 1),
      length (take 2 (or_empty (strtokc (some (codes "/abcd/e")) (some (codes "/")) none).0)),
      (strtokc (some (codes "/abcd/e")) (some (codes "/")) none).1,
    )
strntokc-strtokc_example =
    strntokc-strtokc (replicate 4 1) 2 (some (codes "/abcd/e")) (some (codes "/")) none
      (ground arith)

-- The second buffer begins with the newline of a pair.
abbrev two_buffers : List (ℕ × Bytes)
two_buffers = (b'a', codes "\nb\r") ∷ (b'\n', codes "c\n") ∷ []

local_ascii_file_size_lem_example :
    (local_ascii_file_size true true (reads_of two_buffers (some [] ∷ []))
      ≡ pos (length (to_network 0 (bytes_of two_buffers))))
    × (local_ascii_file_size true true (reads_of two_buffers (none ∷ [])) ≡ neg 1)
    × (local_ascii_file_size true false [] ≡ neg 1)
    × (local_ascii_file_size false true [] ≡ neg 1)
local_ascii_file_size_lem_example = local_ascii_file_size_lem two_buffers [] true

path_contains_intermediate_dot_dot_sub_dir_lem_example :
    path_contains_intermediate_dot_dot_sub_dir (codes "a.../b\\..../c")
    ≡ any_dot_dot (names_of (codes "a.../b\\..../c"))
path_contains_intermediate_dot_dot_sub_dir_lem_example =
    path_contains_intermediate_dot_dot_sub_dir_lem (codes "a.../b\\..../c")
