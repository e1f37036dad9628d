-- ===== src/Strn/Token.antt =====
-- Strn/Strntok.c and Strn/strtokc.c: cutting a text into tokens.
--
-- The static `p` of Strtok and Strntok, and `*context` of strtokc and strntokc, are the text that is
-- not yet read (`none` for NULL). Each function takes it and gives its new value back. A token that
-- is returned by its start is the text up to the NUL that replaces the delimiter.
pub mod Pieces
pub mod Bounds
use libncftp.Base.{
  ℕ, zero, suc, ◌+◌, ◌-◌, Bool, true, false, ◌||◌, [], ◌∷◌, Option, none, some, Bytes, ◌==◌,
  if◌then◌else◌, ℤ, pos, neg,
}
use libncftp.Strn.{behind, poke, fill}

-- `strchr(delims, c) != NULL`, and the inner loop of strtokc, for `c` that is not NUL.
unfoldable pub is_delim : Bytes → ℕ → Bool
is_delim [] c = false
is_delim (d ∷ ds) c = d == c || is_delim ds c

module _ (delims : Bytes) where
  -- The loop of Strtok: the token, and the new `p`.
  unfoldable pub scan : Bytes → Bytes × Option Bytes
  unfolding is_delim
  scan [] = ([], none)
  scan (c ∷ s) = let (t, p) = scan s in if is_delim delims c then ([], some s) else (c ∷ t, p)

  -- Strtok, once `p` is not NULL.
  pub strtok_from : Bytes → Option Bytes × Option Bytes
  unfolding scan
  strtok_from s = (some (scan s).0, (scan s).1)

  -- Strtok: the token, and the new `p`.
  unfoldable pub strtok : Option Bytes → Option Bytes → Option Bytes × Option Bytes
  unfolding strtok_from
  strtok (some buf) p = strtok_from buf
  strtok none none = (none, none)
  strtok none (some s) = strtok_from s

  -- The loop of Strntok with `lim - dst` bytes of room, and its NUL and padding: the array from
  -- `dst` on, the length, and the new `p`.
  pub scan_into : ℕ → Bytes → Bytes → Option (Bytes × ℕ × Option Bytes)
  unfolding is_delim
  scan_into room [] d = elim (fill (suc room) d) [ none ↦ none | some a ↦ some (a, 0, none) ]
  scan_into room (c ∷ s) [] = none
  scan_into zero (c ∷ s) (x ∷ d) =
      let rest = scan_into zero s (x ∷ d) in
      if is_delim delims c then some (0 ∷ d, 0, some s) else rest
  scan_into (suc room) (c ∷ s) (x ∷ d) =
      let stop : Option (Bytes × ℕ × Option Bytes) = elim (fill (suc (suc room)) (x ∷ d)) [
        | none ↦ none
        | some a ↦ some (a, 0, some s)
      ] in
      let rest : Option (Bytes × ℕ × Option Bytes) = elim (scan_into room s d) [
        | none ↦ none
        | some (a, n, p) ↦ some (c ∷ a, suc n, p)
      ] in
      if is_delim delims c then stop else rest

  pub strntok_from : Bytes → ℕ → Bytes → Option (Bytes × ℤ × Option Bytes)
  unfolding scan_into
  strntok_from dst size s = elim (scan_into (size - 1) s dst) [
    | none ↦ none
    | some (a, n, p) ↦ some (a, pos n, p)
  ]

  -- Strntok: the token's array, the result, and the new `p`. The size is at least 1.
  unfoldable pub strntok :
      Bytes → ℕ → Option Bytes → Option Bytes → Option (Bytes × ℤ × Option Bytes)
  unfolding strntok_from fill
  strntok dst size (some buf) p = strntok_from dst size buf
  strntok dst size none none = elim (poke 0 dst) [ none ↦ none | some a ↦ some (a, neg 1, none) ]
  strntok dst size none (some s) = strntok_from dst size s

  -- "Eat leading delimiters": the text from the first byte that is none, `none` if all are.
  pub eat : Bytes → Option Bytes
  unfolding is_delim
  eat [] = none
  eat (c ∷ s) = let rest = eat s in if is_delim delims c then rest else some (c ∷ s)

  -- The loop behind `starttok`: the token's bytes, and the new `*context`.
  pub take_token : Bytes → Bytes × Bytes
  unfolding is_delim
  take_token [] = ([], [])
  take_token (c ∷ s) =
      let (t, ctx) = take_token s in if is_delim delims c then ([], s) else (c ∷ t, ctx)

  -- The token that starts where `eat` stopped.
  pub strtokc_token : Option Bytes → Option Bytes × Option Bytes
  strtokc_token none = (none, none)
  strtokc_token (some t) = (some (take_token t).0, some (take_token t).1)

  pub strtokc_from : Bytes → Option Bytes × Option Bytes
  unfolding eat take_token strtokc_token
  strtokc_from s = strtokc_token (eat s)

-- strtokc: the token, and the new `*context`. `delims` may be NULL.
unfoldable pub strtokc : Option Bytes → Option Bytes → Option Bytes → Option Bytes × Option Bytes
unfolding strtokc_from
strtokc none none ctx = (none, none)
strtokc (some parsestr) none ctx = (none, none)
strtokc none (some delims) none = (none, none)
strtokc none (some delims) (some s) = strtokc_from delims s
strtokc (some parsestr) (some delims) ctx = strtokc_from delims parsestr

-- The end of strntokc: the NUL and the padding, with `room` bytes before `lim`.
pub finish : {A : Type 0} → ℕ → A → Bytes → Option (Bytes × ℕ × A)
finish room ctx d = elim (fill (suc room) d) [ none ↦ none | some a ↦ some (a, 0, ctx) ]

-- `*dst++ = c;` in front of what is written behind it.
abbrev pub onto : {A : Type 0} → ℕ → Option (Bytes × ℕ × A) → Option (Bytes × ℕ × A)
onto c none = none
onto c (some (a, n, ctx)) = some (c ∷ a, suc n, ctx)

-- The loop of strntokc behind `starttok`, and its end: the array from `dst` on, the length, and the
-- new `*context`.
pub take_into : Bytes → ℕ → Bytes → Bytes → Option (Bytes × ℕ × Bytes)
unfolding is_delim finish
take_into delims room [] d = finish room [] d
take_into delims room (c ∷ s) [] = none
take_into delims zero (c ∷ s) (x ∷ d) =
    let rest = take_into delims zero s (x ∷ d) in
    if is_delim delims c then finish zero s (x ∷ d) else rest
take_into delims (suc room) (c ∷ s) (x ∷ d) =
    let rest = onto c (take_into delims room s d) in
    if is_delim delims c then finish (suc room) s (x ∷ d) else rest

abbrev pub known_context : Option (Bytes × ℕ × Bytes) → Option (Bytes × ℕ × Option Bytes)
known_context none = none
known_context (some (a, n, ctx)) = some (a, n, some ctx)

-- The token that starts where the delimiters before it end. Its first byte is no delimiter, so the
-- loop stores it in the same way as the code does before the loop.
pub strntokc_token : Bytes → ℕ → Option Bytes → Bytes → Option (Bytes × ℕ × Option Bytes)
unfolding take_into finish
strntokc_token delims room none d = finish room none d
strntokc_token delims room (some t) d = known_context (take_into delims room t d)

-- strntokc, for a size of at least 1: the token's array, the length, and the new `*context`.
unfoldable pub strntokc :
    Bytes → ℕ → Option Bytes → Option Bytes → Option Bytes → Option (Bytes × ℕ × Option Bytes)
unfolding strntokc_token eat fill finish
strntokc dst size none none ctx = finish (size - 1) none dst
strntokc dst size (some parsestr) none ctx = finish (size - 1) none dst
strntokc dst size none (some delims) none = finish (size - 1) none dst
strntokc dst size none (some delims) (some s) = strntokc_token delims (size - 1) (eat delims s) dst
strntokc dst size (some parsestr) (some delims) ctx =
    strntokc_token delims (size - 1) (eat delims parsestr) dst
