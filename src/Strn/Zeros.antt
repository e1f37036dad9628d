-- ===== src/Strn/Zeros.antt =====
-- Strnpcpy into an array of NULs.
use libncftp.Base.{
  ℕ, zero, suc, ◌-◌, ◌≤◌, ◌<◌, [], ◌∷◌, ◌++◌, none, some, Bytes, length, replicate, ◌≡◌, refl,
  arith, sub-suc, sub-zero,
}
use libncftp.Strn.{behind, fill, copy_text, copied, strnpcpy}

pub fill_zeros : (d : Bytes) → fill (length d) d ≡ some (replicate (length d) 0)
unfolding fill
fill_zeros [] = refl
fill_zeros (x ∷ d) = rw (fill_zeros d, behind) refl

pub fill_zeros_of : (d : Bytes) (k : ℕ) → length d ≡ k → fill k d ≡ some (replicate k 0)
fill_zeros_of d k h = rw (← h) (fill_zeros d)

copy_text_zeros :
    (k m : ℕ) (s : Bytes)
    → length s ≤ k
    → length s < m
    → copy_text k s (replicate m 0) ≡ some (s ++ replicate (m - length s) 0)
unfolding copy_text
copy_text_zeros k zero s h room = elim room [ ]
copy_text_zeros zero (suc m) [] h room = rw sub-zero refl
copy_text_zeros (suc k) (suc m) [] h room = rw sub-zero refl
copy_text_zeros zero (suc m) (c ∷ s) h room = elim h [ ]
copy_text_zeros (suc k) (suc m) (c ∷ s) h room =
    rw (copy_text_zeros k m s (omega arith) (omega arith), behind, sub-suc) refl

copied_whole : (k : ℕ) (s : Bytes) → length s ≤ k → copied k s ≡ length s
unfolding copied
copied_whole zero [] h = refl
copied_whole (suc k) [] h = refl
copied_whole zero (c ∷ s) h = elim h [ ]
copied_whole (suc k) (c ∷ s) h = rw (copied_whole k s (omega arith)) refl

pub strnpcpy_zeros :
    (k m : ℕ) (s : Bytes)
    → length s ≤ k
    → length s < m
    → strnpcpy (replicate m 0) s (suc k) ≡ some (s ++ replicate (m - length s) 0, length s)
unfolding strnpcpy
strnpcpy_zeros k m s h room = rw (copy_text_zeros k m s h room, strnpcpy, copied_whole k s h) refl

copy_text_faults :
    (k m : ℕ) (s : Bytes) → m ≤ k → m ≤ length s → copy_text k s (replicate m 0) ≡ none
unfolding copy_text
copy_text_faults zero zero s h long = refl
copy_text_faults (suc k) zero s h long = refl
copy_text_faults k (suc m) [] h long = elim long [ ]
copy_text_faults zero (suc m) (c ∷ s) h long = elim h [ ]
copy_text_faults (suc k) (suc m) (c ∷ s) h long =
    rw (copy_text_faults k m s (omega arith) (omega arith), behind) refl

pub strnpcpy_faults :
    (k m : ℕ) (s : Bytes) → m ≤ k → m ≤ length s → strnpcpy (replicate m 0) s (suc k) ≡ none
unfolding strnpcpy
strnpcpy_faults k m s h long = rw (copy_text_faults k m s h long, strnpcpy) refl
