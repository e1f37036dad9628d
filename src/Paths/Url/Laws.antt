-- ===== src/Paths/Url/Laws.antt =====
-- What URLCopyToken decodes, and where it writes.
use libncftp.Base.{
  ℕ, zero, suc, ◌+◌, ◌-◌, ◌/◌, ◌%◌, ◌≤◌, ◌<◌, Bool, false, List, [], ◌∷◌, ◌++◌, Option, none, some,
  Bytes, if◌then◌else◌, ltb, ◌≡◌, ◌≢◌, refl, arith, length, drop, All, Lacks, cstr-Lacks, cstr,
  length-append, append_assoc,
}
use libncftp.Strn.{behind}
use libncftp.Paths.Url.{banned, store_hex, decode_hex, store_plain, copy_token, url_copy_token}

-- A hexadecimal digit, in upper or lower case.
abbrev pub hex_digit : Bool → ℕ → ℕ
hex_digit upper d = if ltb d 10 then b'0' + d else (if upper then b'A' else b'a') + (d - 10)

abbrev pub hex : Bool → Bool → ℕ → Bytes
hex u v b = hex_digit u (b / 16) ∷ hex_digit v (b % 16) ∷ []

-- RFC 1738: a byte stands for itself, or for a percent sign and its code in hexadecimal, each digit in
-- upper or lower case.
pub data Spelling : Type 0 where
  itself : Spelling
  escaped : Bool → Bool → Spelling

-- One byte of a text as it is spelled.
abbrev pub spell : ℕ × Spelling → Bytes
spell (b, itself) = b ∷ []
spell (b, escaped u v) = b'%' ∷ hex u v b

-- A text, with how each of its bytes is spelled, and its encoding.
abbrev pub text_of : List (ℕ × Spelling) → Bytes
text_of [] = []
text_of ((b, how) ∷ s) = b ∷ text_of s

pub encode : List (ℕ × Spelling) → Bytes
encode [] = []
encode (item ∷ s) = spell item ++ encode s

-- NUL and the percent sign do not stand for themselves, and the code refuses some escaped codes.
abbrev pub Allowed : ℕ × Spelling → Type 0
Allowed (b, itself) = (b ≢ 0) × (b ≢ b'%')
Allowed (b, escaped u v) = (b < 256) × (banned b ≡ false)

hex_digit_nonzero : (u : Bool) (d : ℕ) → hex_digit u d ≢ 0
hex_digit_nonzero u d = ground arith

hex_nonzero : (u v : Bool) (b : ℕ) → cstr (hex u v b) ≡ hex u v b
hex_nonzero u v b =
    cstr-Lacks (hex u v b) (hex_digit_nonzero u (b / 16), (hex_digit_nonzero v (b % 16), tt))

copy_plain :
    (scan : Bytes → Option ℕ) (b : ℕ) (src : Bytes) (n room : ℕ) (x : ℕ) (dst : Bytes)
    → b ≢ 0
    → b ≢ b'%'
    → copy_token scan (b ∷ src) (suc n) room (x ∷ dst)
      ≡ behind b (copy_token scan src n (room - 1) dst)
unfolding copy_token store_plain
copy_plain scan b [] n room x dst nul percent = ground arith
copy_plain scan b (c ∷ []) n room x dst nul percent = ground arith
copy_plain scan b (c ∷ d ∷ src) n room x dst nul percent = ground arith

copy_plain_full :
    (scan : Bytes → Option ℕ) (b : ℕ) (src : Bytes) (n room : ℕ)
    → b ≢ 0
    → b ≢ b'%'
    → copy_token scan (b ∷ src) (suc n) room [] ≡ none
unfolding copy_token store_plain
copy_plain_full scan b [] n room nul percent = ground arith
copy_plain_full scan b (c ∷ []) n room nul percent = ground arith
copy_plain_full scan b (c ∷ d ∷ src) n room nul percent = ground arith

module _ (scan : Bytes → Option ℕ)
    (reads_hex : (u v : Bool) (b : ℕ) → b < 256 → scan (hex u v b) ≡ some b) where
  copy_escape :
      (u v : Bool) (b : ℕ) (src : Bytes) (n room : ℕ) (x : ℕ) (dst : Bytes)
      → (b < 256) × (banned b ≡ false)
      → copy_token scan (b'%' ∷ (hex u v b ++ src)) (suc (suc (suc n))) (suc room) (x ∷ dst)
        ≡ behind b (copy_token scan src n room dst)
  unfolding copy_token decode_hex store_hex
  copy_escape u v b src n room x dst (small, fine) =
      let two : suc (suc n) - 2 ≡ n = omega arith in
      let byte : b % 256 ≡ b = omega (arith, small) in
      rw (hex_nonzero u v b, reads_hex u v b small, fine, two, byte) refl

  -- One byte of the text, however it is written.
  copy_one :
      (item : ℕ × Spelling) (src : Bytes) (n room : ℕ) (x : ℕ) (dst : Bytes)
      → Allowed item
      → copy_token scan (spell item ++ src) (length (spell item) + n) (suc room) (x ∷ dst)
        ≡ behind item.0 (copy_token scan src n room dst)
  copy_one (b, itself) src n room x dst (nul, percent) =
      let size : 1 + n ≡ suc n = omega arith in
      let less : suc room - 1 ≡ room = omega arith in
      rw (size, copy_plain scan b src n (suc room) x dst nul percent, less) refl
  copy_one (b, escaped u v) src n room x dst allowed =
      let size : 3 + n ≡ suc (suc (suc n)) = omega arith in
      rw size (copy_escape u v b src n room x dst allowed)

  copy-All :
      (s : List (ℕ × Spelling)) (rest dst : Bytes) (room : ℕ)
      → All Allowed s
      → length s ≤ room
      → length s < length dst
      → copy_token scan (encode s ++ rest) (length (encode s)) room dst
        ≡ some (text_of s ++ (0 ∷ drop (suc (length s)) dst))
  unfolding encode copy_token
  copy-All [] rest [] room h fits size = elim size [ ]
  copy-All [] rest (x ∷ dst) room h fits size = refl
  copy-All (b ∷ s) rest [] room h fits size = elim size [ ]
  copy-All (b ∷ s) rest (x ∷ dst) zero h fits size = elim fits [ ]
  copy-All (b ∷ s) rest (x ∷ dst) (suc room) (hb, hs) fits size =
      rw
        (
          append_assoc (spell b) (encode s) rest,
          length-append (spell b) (encode s),
          copy_one b (encode s ++ rest) (length (encode s)) room x dst hb,
          copy-All s rest dst room hs (omega arith) (omega arith),
        )
        refl

  -- URLCopyToken decodes what RFC 1738 encodes, whichever bytes are escaped and in whichever case their
  -- digits are: for a text that is shorter than the array, where NUL and the percent sign are not
  -- written for themselves and no escaped byte is one of the codes NUL, \a, \b, \n, \v, \f and \r,
  -- the array holds the text, a NUL, and what it held behind that. `scan` is taken to read the two
  -- digits that a byte's code has.
  pub url_copy_token-encode :
      (s : List (ℕ × Spelling)) (rest dst : Bytes)
      → All Allowed s
      → length s < length dst
      → url_copy_token scan dst (length dst) (encode s ++ rest) (length (encode s))
        ≡ some (text_of s ++ (0 ∷ drop (suc (length s)) dst))
  unfolding url_copy_token
  url_copy_token-encode s rest dst h size =
      copy-All s rest dst (length dst - 1) h (omega (arith, size)) size

overflow :
    (scan : Bytes → Option ℕ) (s rest dst : Bytes) (room : ℕ)
    → Lacks 0 s
    → Lacks b'%' s
    → length dst ≤ length s
    → copy_token scan (s ++ rest) (length s) room dst ≡ none
unfolding copy_token store_plain
overflow scan [] rest [] room nul percent long = refl
overflow scan [] rest (x ∷ dst) room nul percent long = elim long [ ]
overflow scan (b ∷ s) rest [] room (hb, hs) (pb, ps) long =
    copy_plain_full scan b (s ++ rest) (length s) room hb pb
overflow scan (b ∷ s) rest (x ∷ dst) room (hb, hs) (pb, ps) long =
    rw
      (
        copy_plain scan b (s ++ rest) (length s) room x dst hb pb,
        overflow scan s rest dst (room - 1) hs ps (omega (arith, long)),
      )
      refl

-- A token without escapes that is as long as the array, or longer, is written past the array's end,
-- whatever the size that is passed: the size bounds only the bytes that are escaped.
pub url_copy_token_overflows :
    (scan : Bytes → Option ℕ) (s rest dst : Bytes) (dsize : ℕ)
    → Lacks 0 s
    → Lacks b'%' s
    → length dst ≤ length s
    → url_copy_token scan dst dsize (s ++ rest) (length s) ≡ none
unfolding url_copy_token
url_copy_token_overflows scan s rest dst dsize nul percent long =
    overflow scan s rest dst (dsize - 1) nul percent long
