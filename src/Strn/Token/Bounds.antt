-- ===== src/Strn/Token/Bounds.antt =====
-- Strntok writes Strtok's token, cut to the array, and keeps the same text for the next call.
use libncftp.Base.{
  ℕ, zero, suc, ◌-◌, ◌≤◌, ◌<◌, [], ◌∷◌, Option, none, some, ◌≡◌, refl, inl, inr, sub-suc, sub-zero,
  Bytes, length, take, arith, Bool-cases, pos,
}
use libncftp.Strn.Copy.{fill_lem, padded}
use libncftp.Strn.Token.{
  is_delim, scan, scan_into, strtok_from, strntok_from, strtok, strntok, eat, take_token,
  strtokc_token, strtokc_from, strtokc, finish, onto, take_into, strntokc_token, strntokc,
}

module _ (delims : Bytes) where
  scan_into-scan :
      (room : ℕ) (s d : Bytes)
      → room < length d
      → scan_into delims room s d
        ≡ some (
          padded room (scan delims s).0 d,
          length (take room (scan delims s).0),
          (scan delims s).1,
        )
  unfolding scan_into scan padded
  scan_into-scan zero [] d h = rw (fill_lem 1 d (omega arith), scan_into)
  scan_into-scan (suc room) [] d h =
      rw (fill_lem (suc (suc room)) d (omega arith), scan_into, sub-zero)
  scan_into-scan room (c ∷ s) [] h = elim h [ ]
  scan_into-scan zero (c ∷ s) (x ∷ d) h = elim (Bool-cases (is_delim delims c)) [
    | inl e ↦ rw e
    | inr e ↦ rw e (scan_into-scan zero s (x ∷ d) h)
  ]
  scan_into-scan (suc room) (c ∷ s) (x ∷ d) h = elim (Bool-cases (is_delim delims c)) [
    | inl e ↦ rw (e, fill_lem (suc (suc room)) (x ∷ d) (omega arith), scan_into, sub-zero)
    | inr e ↦ rw (e, scan_into-scan room s d (omega arith), scan_into, sub-suc)
  ]

-- Into an array that is at least as large as the size given, and for a size of at least 1, Strntok
-- writes the token of Strtok cut to `tokenSize - 1` bytes, NULs up to the size, and nothing behind
-- it; it returns the length written, and keeps the same text as Strtok for the next call.
pub strntok-strtok :
    (delims dst : Bytes) (k : ℕ) (buf : Bytes) (p : Option Bytes)
    → suc k ≤ length dst
    → strntok delims dst (suc k) (some buf) p
        ≡ some (
          padded k (scan delims buf).0 dst,
          pos (length (take k (scan delims buf).0)),
          (scan delims buf).1,
        )
      × (strtok delims (some buf) p ≡ (some (scan delims buf).0, (scan delims buf).1))
unfolding strntok strtok strntok_from strtok_from
strntok-strtok delims dst k buf p h =
    let e : suc k - 1 ≡ k = omega arith in
    (rw (e, strntok_from, scan_into-scan delims k buf dst h), refl)

finish_lem :
    {A : Type 0}
    → (k : ℕ) (ctx : A) (d : Bytes) → k < length d
    → finish k ctx d ≡ some (padded k [] d, 0, ctx)
unfolding finish padded
finish_lem zero ctx d h = rw (fill_lem 1 d (omega arith), finish)
finish_lem (suc k) ctx d h = rw (fill_lem (suc (suc k)) d (omega arith), finish, sub-zero)

padded-suc :
    (k c : ℕ) (t : Bytes) (x : ℕ) (d : Bytes) → padded (suc k) (c ∷ t) (x ∷ d) ≡ c ∷ padded k t d
unfolding padded
padded-suc k c t x d = rw sub-suc

take_into-take_token :
    (delims : Bytes) (room : ℕ) (s d : Bytes)
    → room < length d
    → take_into delims room s d
      ≡ some (
        padded room (take_token delims s).0 d,
        length (take room (take_token delims s).0),
        (take_token delims s).1,
      )
unfolding take_into take_token padded
take_into-take_token delims zero [] d h = finish_lem zero [] d h
take_into-take_token delims (suc room) [] d h = finish_lem (suc room) [] d h
take_into-take_token delims room (c ∷ s) [] h = elim h [ ]
take_into-take_token delims zero (c ∷ s) (x ∷ d) h = elim (Bool-cases (is_delim delims c)) [
  | inl e ↦ rw e (finish_lem zero s (x ∷ d) h)
  | inr e ↦ rw e (take_into-take_token delims zero s (x ∷ d) h)
]
take_into-take_token delims (suc room) (c ∷ s) (x ∷ d) h = elim (Bool-cases (is_delim delims c)) [
  | inl e ↦ rw e (finish_lem (suc room) s (x ∷ d) h)
  | inr e ↦ rw (
    e,
    take_into-take_token delims room s d (omega arith),
    onto,
    padded-suc room c (take_token delims s).0 x d,
  )
]

-- The bytes of a token; no token has none.
abbrev pub or_empty : Option Bytes → Bytes
or_empty none = []
or_empty (some t) = t

no_token :
    (k : ℕ) (dst : Bytes)
    → suc k ≤ length dst
    → finish {A = Option Bytes} k none dst
      ≡ some (padded k [] dst, length (take {A = ℕ} k []), none)
no_token zero dst h = finish_lem zero none dst h
no_token (suc k) dst h = finish_lem (suc k) none dst h

strntokc_token_lem :
    (delims : Bytes) (k : ℕ) (t : Option Bytes) (dst : Bytes)
    → suc k ≤ length dst
    → strntokc_token delims k t dst
      ≡ some (
        padded k (or_empty (strtokc_token delims t).0) dst,
        length (take k (or_empty (strtokc_token delims t).0)),
        (strtokc_token delims t).1,
      )
unfolding strntokc_token strtokc_token
strntokc_token_lem delims k none dst h = no_token k dst h
strntokc_token_lem delims k (some t) dst h = rw (take_into-take_token delims k t dst h)

-- Into an array that is at least as large as the size given, and for a size of at least 1, strntokc
-- writes the token of strtokc cut to `tokenSize - 1` bytes, or no byte where there is no token, then
-- NULs up to the size, and nothing behind it; it returns the length written, and leaves the same
-- context as strtokc. NULL for the text, the delimiters or the context is included.
pub strntokc-strtokc :
    (dst : Bytes) (k : ℕ) (parsestr delims ctx : Option Bytes)
    → suc k ≤ length dst
    → strntokc dst (suc k) parsestr delims ctx
      ≡ some (
        padded k (or_empty (strtokc parsestr delims ctx).0) dst,
        length (take k (or_empty (strtokc parsestr delims ctx).0)),
        (strtokc parsestr delims ctx).1,
      )
unfolding strntokc strtokc strtokc_from
strntokc-strtokc dst k none none ctx h =
    let e : suc k - 1 ≡ k = omega arith in rw e (no_token k dst h)
strntokc-strtokc dst k (some s) none ctx h =
    let e : suc k - 1 ≡ k = omega arith in rw e (no_token k dst h)
strntokc-strtokc dst k none (some delims) none h =
    let e : suc k - 1 ≡ k = omega arith in rw e (no_token k dst h)
strntokc-strtokc dst k none (some delims) (some s) h =
    let e : suc k - 1 ≡ k = omega arith in rw e (strntokc_token_lem delims k (eat delims s) dst h)
strntokc-strtokc dst k (some s) (some delims) ctx h =
    let e : suc k - 1 ≡ k = omega arith in rw e (strntokc_token_lem delims k (eat delims s) dst h)
