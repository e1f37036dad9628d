-- ===== src/Strn.antt =====
-- Strn/: the bounds-safe string copies, over explicit buffers.
--
-- A `char *dst` into an array is the list of the array's bytes from that place on, so a write
-- through it past the array's end is a fault, `none`. A `const char *src` is the text before its
-- NUL. Each loop is a function of the rounds that are left (`n - i`), of the unread source and of
-- the array from `d` on; it gives the array from `d` on after the writes. The padding is that of
-- Strn/Strn.h: STRN_ZERO_PAD is 1 and STRNP_ZERO_PAD is 0.
pub mod Copy
pub mod Fits
pub mod Zeros
pub mod Token
use libncftp.Base.{
  ℕ, zero, suc, ◌+◌, ◌-◌, ◌*◌, Bool, true, false, List, [], ◌∷◌, ◌++◌, Option, none, some, Bytes,
  length, cstr, ◌==◌, ltb, if◌then◌else◌,
}

-- A pointer into the array that lies `length done` bytes behind `dst`.
abbrev pub behind : ℕ → Option Bytes → Option Bytes
behind b none = none
behind b (some d) = some (b ∷ d)

-- `*d = b`
abbrev pub poke : ℕ → Bytes → Option Bytes
poke b [] = none
poke b (x ∷ d) = some (b ∷ d)

-- `for (; i<n; i++) *d++ = 0;` with `n - i` rounds left
pub fill : ℕ → Bytes → Option Bytes
fill zero d = some d
fill (suc k) [] = none
fill (suc k) (x ∷ d) = behind 0 (fill k d)

-- The loop of Strncpy and of Strncat, with its padding.
pub copy_padded : ℕ → Bytes → Bytes → Option Bytes
copy_padded zero src d = poke 0 d
copy_padded (suc k) src [] = none
copy_padded (suc k) [] (x ∷ d) = behind 0 (fill (suc k) d)
copy_padded (suc k) (c ∷ src) (x ∷ d) = behind c (copy_padded k src d)

-- The same loop without padding, as in the other four functions.
pub copy_text : ℕ → Bytes → Bytes → Option Bytes
copy_text zero src d = poke 0 d
copy_text (suc k) src [] = none
copy_text (suc k) [] (x ∷ d) = some (0 ∷ d)
copy_text (suc k) (c ∷ src) (x ∷ d) = behind c (copy_text k src d)

-- How far `d` has moved when the unpadded loop returns `ret` or `d`.
pub copied : ℕ → Bytes → ℕ
copied zero src = 0
copied (suc k) [] = 0
copied (suc k) (c ∷ src) = suc (copied k src)

-- Strncpy: `*d = 0` comes first, also for `n == 0`.
unfoldable pub strncpy : Bytes → Bytes → ℕ → Option Bytes
unfolding copy_padded fill
strncpy [] src n = none
strncpy (x ∷ d) src zero = some (0 ∷ d)
strncpy (x ∷ d) src (suc k) = copy_padded k src (0 ∷ d)

-- Strncpy_NoZeroPad
unfoldable pub strncpy_no_zero_pad : Bytes → Bytes → ℕ → Option Bytes
unfolding copy_text
strncpy_no_zero_pad [] src n = none
strncpy_no_zero_pad (x ∷ d) src zero = some (0 ∷ d)
strncpy_no_zero_pad (x ∷ d) src (suc k) = copy_text k src (0 ∷ d)

-- Strnpcpy: the array, and how far the returned pointer lies behind `dst`.
unfoldable pub strnpcpy : Bytes → Bytes → ℕ → Option (Bytes × ℕ)
unfolding copy_text copied
strnpcpy dst src zero = elim (poke 0 dst) [ none ↦ none | some d ↦ some (d, 0) ]
strnpcpy dst src (suc k) = elim (copy_text k src dst) [
  | none ↦ none
  | some d ↦ some (d, copied k src)
]

-- `strlen` of an array: reading past the end of an array with no NUL is a fault.
unfoldable pub strlen? : Bytes → Option ℕ
strlen? [] = none
strlen? (c ∷ d) =
    if c == 0 then some 0 else (elim (strlen? d) [ none ↦ none | some i ↦ some (suc i) ])

-- What a write through `dst + i` leaves of the array.
unfoldable pub at_offset : ℕ → (Bytes → Option Bytes) → Bytes → Option Bytes
at_offset zero write d = write d
at_offset (suc i) write [] = none
at_offset (suc i) write (x ∷ d) = behind x (at_offset i write d)

-- `n != 0 && ((i = strlen(dst)) < (n - 1))`, and then the loop, which has `n - 1 - i` rounds.
cat_with : (ℕ → Bytes → Bytes → Option Bytes) → Bytes → Bytes → ℕ → Option Bytes
cat_with copy dst src zero = some dst
cat_with copy dst src (suc k) = elim (strlen? dst) [
  | none ↦ none
  | some i ↦ if ltb i k then at_offset i (copy (k - i) src) dst else some dst
]

-- Strncat
unfoldable pub strncat : Bytes → Bytes → ℕ → Option Bytes
unfolding cat_with copy_padded fill at_offset strlen?
strncat = cat_with copy_padded

-- Strncat_NoZeroPad
unfoldable pub strncat_no_zero_pad : Bytes → Bytes → ℕ → Option Bytes
unfolding cat_with copy_text at_offset strlen?
strncat_no_zero_pad = cat_with copy_text

-- Strnpcat: the array, and how far the returned pointer lies behind `dst`. Where nothing is
-- appended that pointer is `dst` itself.
unfoldable pub strnpcat : Bytes → Bytes → ℕ → Option (Bytes × ℕ)
unfolding copy_text copied at_offset strlen?
strnpcat dst src zero = some (dst, 0)
strnpcat dst src (suc k) = elim (strlen? dst) [
  | none ↦ none
  | some i ↦
      if ltb i k
      then (elim (at_offset i (copy_text (k - i) src) dst) [
        | none ↦ none
        | some d ↦ some (d, i + copied (k - i) src)
      ])
      else some (dst, 0)
]
