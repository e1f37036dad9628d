-- ===== src/Strn/Copy.antt =====
-- What the copies of Strn.antt leave in the array.
use libncftp.Base.{
  ℕ, zero, suc, ◌-◌, ◌≤◌, ◌<◌, false, [], ◌∷◌, ◌++◌, Option, none, some, ◌≡◌, refl, sym, ap, ◌∙◌,
  Bytes, length, take, drop, replicate, length-append, length-replicate, length-drop, length-take,
  cstr, Lacks, arith, ◌≢◌, ◌↔◌, sub-suc, sub-zero, dec_lt, ltb, cstr-append, All-append,
  append_assoc, append-nil, lt→ltb, sym, ◌∙◌, ltb, cstr, Lacks,
}
use libncftp.Strn.{
  behind, fill, copy_padded, copy_text, copied, strncpy, strnpcpy, strlen?, at_offset, cat_with,
  strncat,
}

pub fill_lem : (k : ℕ) (d : Bytes) → k ≤ length d → fill k d ≡ some (replicate k 0 ++ drop k d)
unfolding fill
fill_lem zero d h = refl
fill_lem (suc k) [] h = elim h [ ]
fill_lem (suc k) (x ∷ d) h = rw (fill_lem k d (omega arith), behind)

-- The text that is copied, cut to the room; then NULs up to the size; then the old bytes.
unfoldable pub padded : ℕ → Bytes → Bytes → Bytes
padded k src d = take k src ++ (replicate (suc k - length (take k src)) 0 ++ drop (suc k) d)

pub copy_padded_lem :
    (k : ℕ) (src d : Bytes) → k < length d → copy_padded k src d ≡ some (padded k src d)
unfolding copy_padded padded
copy_padded_lem zero src [] h = elim h [ ]
copy_padded_lem zero src (x ∷ d) h = refl
copy_padded_lem (suc k) src [] h = elim h [ ]
copy_padded_lem (suc k) [] (x ∷ d) h = rw (sub-zero, fill_lem (suc k) d (omega arith), behind)
copy_padded_lem (suc k) (c ∷ src) (x ∷ d) h =
    rw (copy_padded_lem k src d (omega arith), behind, sub-suc)

-- The text that is copied, cut to the room; one NUL; then the old bytes.
unfoldable pub terminated : ℕ → Bytes → Bytes → Bytes
terminated k src d = take k src ++ (0 ∷ drop (suc (length (take k src))) d)

pub copy_text_lem :
    (k : ℕ) (src d : Bytes) → k < length d → copy_text k src d ≡ some (terminated k src d)
unfolding copy_text terminated
copy_text_lem zero src [] h = elim h [ ]
copy_text_lem zero src (x ∷ d) h = refl
copy_text_lem (suc k) src [] h = elim h [ ]
copy_text_lem (suc k) [] (x ∷ d) h = refl
copy_text_lem (suc k) (c ∷ src) (x ∷ d) h = rw (copy_text_lem k src d (omega arith), behind)

pub copied_lem : (k : ℕ) (src : Bytes) → copied k src ≡ length (take k src)
unfolding copied
copied_lem zero src = refl
copied_lem (suc k) [] = refl
copied_lem (suc k) (c ∷ src) = ap suc (copied_lem k src)

-- For a size within the array, Strncpy leaves the text cut to `n - 1` bytes, NULs up to the size,
-- and the bytes behind the size as they were. A size of 0 or beyond the array is excluded.
pub strncpy_lem :
    (dst src : Bytes) (k : ℕ)
    → suc k ≤ length dst
    → strncpy dst src (suc k) ≡ some (padded k src dst)
unfolding strncpy padded
strncpy_lem [] src k h = elim h [ ]
strncpy_lem (x ∷ d) src k h = copy_padded_lem k src (0 ∷ d) h

fill_faults : (k : ℕ) (d : Bytes) → length d < k → fill k d ≡ none
unfolding fill
fill_faults zero d h = elim h [ ]
fill_faults (suc k) [] h = refl
fill_faults (suc k) (x ∷ d) h = rw (fill_faults k d (omega arith), behind)

copy_padded_faults : (k : ℕ) (src d : Bytes) → length d ≤ k → copy_padded k src d ≡ none
unfolding copy_padded
copy_padded_faults zero src [] h = refl
copy_padded_faults zero src (x ∷ d) h = elim h [ ]
copy_padded_faults (suc k) src [] h = refl
copy_padded_faults (suc k) [] (x ∷ d) h = rw (fill_faults (suc k) d (omega arith), behind)
copy_padded_faults (suc k) (c ∷ src) (x ∷ d) h =
    rw (copy_padded_faults k src d (omega arith), behind)

-- Strncpy stays inside the array exactly when the array is not empty and the size is at most the
-- array's, whatever the text: a short text is padded out to the size.
pub strncpy_in_bounds :
    (dst src : Bytes) (n : ℕ) → (strncpy dst src n ≢ none) ↔ ((0 < length dst) × (n ≤ length dst))
unfolding strncpy
strncpy_in_bounds [] src n = ground arith
strncpy_in_bounds (x ∷ d) src zero = ground arith
strncpy_in_bounds (x ∷ d) src (suc k) = elim (dec_lt k (suc (length d))) [
  | yes h ↦ ground (arith, copy_padded_lem k src (0 ∷ d) h)
  | no h ↦ ground (arith, copy_padded_faults k src (0 ∷ d) (omega arith))
]

-- For a size within the array, Strnpcpy leaves the text cut to `n - 1` bytes and one NUL, with all
-- later bytes as they were, and returns the place of that NUL.
pub strnpcpy_lem :
    (dst src : Bytes) (k : ℕ)
    → suc k ≤ length dst
    → strnpcpy dst src (suc k) ≡ some (terminated k src dst, length (take k src))
unfolding strnpcpy
strnpcpy_lem dst src k h = rw (copy_text_lem k src dst h, strnpcpy, copied_lem k src)

strlen?_lem : (t rest : Bytes) → Lacks 0 t → strlen? (t ++ (0 ∷ rest)) ≡ some (length t)
unfolding strlen?
strlen?_lem [] rest _ = refl
strlen?_lem (c ∷ t) rest (h, hs) = ground (arith, strlen?_lem t rest hs)

at_offset_lem :
    (t rest : Bytes) (write : Bytes → Option Bytes) {d : Bytes}
    → write rest ≡ some d
    → at_offset (length t) write (t ++ rest) ≡ some (t ++ d)
unfolding at_offset
at_offset_lem [] rest write h = h
at_offset_lem (c ∷ t) rest write h = rw (at_offset_lem t rest write h, behind)

take-append_short :
    (t src : Bytes) (k : ℕ) → length t ≤ k → take k (t ++ src) ≡ t ++ take (k - length t) src
take-append_short [] src k h = rw sub-zero
take-append_short (c ∷ t) src zero h = elim h [ ]
take-append_short (c ∷ t) src (suc k) h = rw (sub-suc, take-append_short t src k (omega arith))

pub length-padded : (k : ℕ) (src d : Bytes) → k < length d → length (padded k src d) ≡ length d
unfolding padded
length-padded k src d h = omega (
  arith,
  length-append (take k src) (replicate (suc k - length (take k src)) 0 ++ drop (suc k) d),
  length-append (replicate (suc k - length (take k src)) 0) (drop (suc k) d),
  length-replicate {A = ℕ} (suc k - length (take k src)) 0,
  length-drop (suc k) d,
  length-take k src,
)

pub take-Lacks : (k : ℕ) (s : Bytes) → Lacks 0 s → Lacks 0 (take k s)
take-Lacks zero s h = tt
take-Lacks (suc k) [] h = tt
take-Lacks (suc k) (c ∷ s) (h, hs) = (h, take-Lacks k s hs)

-- The padded array holds a NUL right behind the text.
pub padded-nul :
    (k : ℕ) (src d : Bytes) → (rest : Bytes) × (padded k src d ≡ take k src ++ (0 ∷ rest))
unfolding padded
padded-nul k src d =
    let gap : suc k - length (take k src) ≡ suc (k - length (take k src)) =
      omega (arith, length-take k src) in
    (replicate (k - length (take k src)) 0 ++ drop (suc k) d, rw gap)

-- `strlen(dst)` is below `n - 1`: the loop runs behind the old text.
strncat_room :
    (t src rest : Bytes) (k : ℕ)
    → Lacks 0 t
    → length t < k
    → k - length t < length (0 ∷ rest)
    → strncat (t ++ (0 ∷ rest)) src (suc k) ≡ some (t ++ padded (k - length t) src (0 ∷ rest))
unfolding strncat
strncat_room t src rest k nt h room =
    rw (strlen?_lem t rest nt, cat_with, lt→ltb _ _ h)
      (at_offset_lem t (0 ∷ rest) (copy_padded (k - length t) src) (copy_padded_lem _ src _ room))

-- No room: nothing is written.
strncat_full :
    (t src rest : Bytes) (k : ℕ)
    → Lacks 0 t
    → length t ≡ k
    → strncat (t ++ (0 ∷ rest)) src (suc k) ≡ some (t ++ (0 ∷ rest))
unfolding strncat
strncat_full t src rest k nt e =
    let no_room : ltb (length t) k ≡ false = ground arith in
    rw (strlen?_lem t rest nt, cat_with, no_room)

pub cstr-padded :
    (t src d : Bytes) (k : ℕ)
    → Lacks 0 t
    → Lacks 0 src
    → cstr (t ++ padded k src d) ≡ t ++ take k src
cstr-padded t src d k nt ns =
    let (more, e) = padded-nul k src d in
    rw (e, ← append_assoc)
      (cstr-append (t ++ take k src) more (All-append _ t (take k src) nt (take-Lacks k src ns)))

-- Where the text in the array and its NUL fit in the size, and the size in the array, Strncat keeps
-- the array's length and leaves as text the two texts joined and cut to `n - 1` bytes.
pub strncat_lem :
    (t src rest : Bytes) (k : ℕ)
    → Lacks 0 t
    → Lacks 0 src
    → length t ≤ k
    → suc k ≤ length (t ++ (0 ∷ rest))
    → (d : Bytes) × (strncat (t ++ (0 ∷ rest)) src (suc k) ≡ some d)
      × (length d ≡ length (t ++ (0 ∷ rest)))
      × (cstr d ≡ take k (t ++ src))
unfolding strncat
strncat_lem t src rest k nt ns fits room = elim (dec_lt (length t) k) [
  | yes h ↦
      let wide : k - length t < length (0 ∷ rest) = omega (arith, length-append t (0 ∷ rest)) in
      (
        t ++ padded (k - length t) src (0 ∷ rest),
        strncat_room t src rest k nt h wide,
        omega (
          arith,
          length-append t (0 ∷ rest),
          length-append t (padded (k - length t) src (0 ∷ rest)),
          length-padded (k - length t) src (0 ∷ rest) wide,
        ),
        cstr-padded t src (0 ∷ rest) (k - length t) nt ns ∙ sym (take-append_short t src k fits),
      )
  | no h ↦
      let e : length t ≡ k = omega arith in
      let none_left : k - length t ≡ 0 = omega arith in
      (
        t ++ (0 ∷ rest),
        strncat_full t src rest k nt e,
        refl,
        cstr-append t rest nt
            ∙ (rw (take-append_short t src k fits, none_left) (sym (append-nil t))),
      )
]
