-- ===== src/Paths/Build/Laws.antt =====
-- The paths that PathBuild makes, and where it writes.
use libncftp.Base.{
  ℕ, suc, ◌+◌, ◌-◌, ◌≤◌, ◌<◌, false, [], ◌∷◌, ◌++◌, none, some, Bytes, codes, leb, ltb, pos, length,
  get_or, cstr, Lacks, strcmp_eq, sub-suc, sub-zero, cstr-Lacks, replicate, ◌≡◌, ◌≢◌, refl, ◌∙◌,
  arith, append_assoc, append-nil, length-append, cstr-append,
}
use libncftp.Strn.{fill, strnpcpy}
use libncftp.Strn.Zeros.{fill_zeros_of, strnpcpy_zeros, strnpcpy_faults}
use libncftp.Strn.Fits.{get_or_behind}
use libncftp.Paths.Build.{strnpcpy_at, measured, add_name, below, build_in, path_build}

-- Through `dst + length done` only what lies behind `done` changes.
strnpcpy_at-some :
    (done d src b : Bytes) (n e : ℕ)
    → strnpcpy d src n ≡ some (b, e)
    → strnpcpy_at (length done) (done ++ d) src n ≡ some (done ++ b, length done + e)
unfolding strnpcpy_at
strnpcpy_at-some [] d src b n e h = ground (arith, h)
strnpcpy_at-some (c ∷ done) d src b n e h = ground (arith, strnpcpy_at-some done d src b n e h)

strnpcpy_at-none :
    (done d src : Bytes) (n : ℕ)
    → strnpcpy d src n ≡ none
    → strnpcpy_at (length done) (done ++ d) src n ≡ none
unfolding strnpcpy_at
strnpcpy_at-none [] d src n h = h
strnpcpy_at-none (c ∷ done) d src n h = ground (arith, strnpcpy_at-none done d src n h)

module _ (p f : Bytes) (sep k j : ℕ) (p_nul : Lacks 0 p) (sep_nul : sep ≢ 0)
    (below_root : strcmp_eq p (sep ∷ []) ≡ false) (room : suc k ≡ length p + suc j)
    (spare : 3 ≤ j) where
  with_separator :
      strnpcpy_at (length p) (p ++ replicate (suc j) 0) (sep ∷ []) (suc k - length p)
      ≡ some ((p ++ (sep ∷ [])) ++ replicate j 0, length (p ++ (sep ∷ [])))
  with_separator =
      let size : suc k - length p ≡ suc j = omega (arith, room) in
      let copied : strnpcpy (replicate (suc j) 0) (sep ∷ []) (suc j)
          ≡ some (sep ∷ replicate j 0, 1) =
        rw (strnpcpy_zeros j (suc j) (sep ∷ []) (omega arith) (omega arith), sub-suc, sub-zero)
          refl in
      rw (size, append_assoc p (sep ∷ []) (replicate j 0), length-append p (sep ∷ []))
        (strnpcpy_at-some p (replicate (suc j) 0) (sep ∷ []) (sep ∷ replicate j 0) (suc j) 1 copied)

  with_parent : cstr (p ++ replicate (suc j) 0) ≡ p
  with_parent = cstr-append p (replicate j 0) p_nul

  short : leb (suc k - 3) (length p) ≡ false
  short = ground (arith, room)

  short_too : leb (suc k - 2) (length p) ≡ false
  short_too = ground (arith, room)

  add_name_lem :
      add_name (suc k) sep (p ++ replicate (suc j) 0) (length p) f
      ≡ measured (suc k) (
          strnpcpy_at
            (length (p ++ (sep ∷ [])))
            ((p ++ (sep ∷ [])) ++ replicate j 0)
            f
            (suc k - length p))
  unfolding add_name
  add_name_lem =
      let separator : cstr (sep ∷ []) ≡ sep ∷ [] = cstr-Lacks (sep ∷ []) (sep_nul, tt) in
      rw (add_name, with_parent, separator, below_root, with_separator, short_too) refl

  below_lem :
      below (suc k) sep (strnpcpy (replicate (suc k) 0) p (suc k)) f
      ≡ measured (suc k) (
          strnpcpy_at
            (length (p ++ (sep ∷ [])))
            ((p ++ (sep ∷ [])) ++ replicate j 0)
            f
            (suc k - length p))
  unfolding below
  below_lem =
      let left : suc k - length p ≡ suc j = omega (arith, room) in
      let copied : strnpcpy (replicate (suc k) 0) p (suc k)
          ≡ some (p ++ replicate (suc j) 0, length p) =
        rw (strnpcpy_zeros k (suc k) p (omega (arith, room)) (omega (arith, room)), left) refl in
      rw (copied, short) add_name_lem

  name_fits :
      length f + 2 ≤ j
      → measured (suc k) (
          strnpcpy_at
            (length (p ++ (sep ∷ [])))
            ((p ++ (sep ∷ [])) ++ replicate j 0)
            f
            (suc k - length p))
        ≡ (let path = p ++ (sep ∷ f) in
            some
              (pos (length path), (path ++ replicate (suc k - length path) 0, some (length path))))
  unfolding measured
  name_fits fits =
      let path = p ++ (sep ∷ f) in
      let size : suc k - length p ≡ suc j = omega (arith, room) in
      let gap : j - length f ≡ suc k - length path =
        omega (arith, room, length-append p (sep ∷ f)) in
      let copied =
        strnpcpy_at-some (p ++ (sep ∷ [])) (replicate j 0) f (f ++ replicate (j - length f) 0)
          (suc j) (length f) (strnpcpy_zeros j j f (omega arith) (omega arith)) in
      let whole : (p ++ (sep ∷ [])) ++ (f ++ replicate (j - length f) 0)
          ≡ path ++ replicate (suc k - length path) 0 =
        rw
          (
            ← gap,
            append_assoc p (sep ∷ []) (f ++ replicate (j - length f) 0),
            append_assoc p (sep ∷ f) (replicate (j - length f) 0),
          )
          refl in
      let long : length (p ++ (sep ∷ [])) + length f ≡ length path =
        omega (arith, length-append p (sep ∷ []), length-append p (sep ∷ f)) in
      let blank : get_or (path ++ replicate (suc k - length path) 0) (suc k - 2) 0 ≡ 0 =
        rw (← append-nil {A = ℕ} (replicate (suc k - length path) 0)) (
          get_or_behind path [] (suc k - length path) (suc k - 2)
            (omega (arith, room, length-append p (sep ∷ f)))
            (omega (arith, room, length-append p (sep ∷ f)))) in
      rw (size, copied, whole, long, blank) refl

  name_too_long :
      j ≤ length f
      → measured (suc k) (
          strnpcpy_at
            (length (p ++ (sep ∷ [])))
            ((p ++ (sep ∷ [])) ++ replicate j 0)
            f
            (suc k - length p))
        ≡ none
  unfolding measured
  name_too_long long =
      let size : suc k - length p ≡ suc j = omega (arith, room) in
      rw
        (
          size,
          strnpcpy_at-none (p ++ (sep ∷ [])) (replicate j 0) f (suc j)
              (strnpcpy_faults j j f (omega arith) long),
        )
        refl

module _ (dst p f : Bytes) (a b sep k : ℕ) (sized : length dst ≡ suc k) (p_nul : Lacks 0 (a ∷ p))
    (sep_nul : sep ≢ 0) (elsewhere : strcmp_eq (a ∷ p) (codes ".") ≡ false)
    (below_root : strcmp_eq (a ∷ p) (sep ∷ []) ≡ false) (size : length (a ∷ p) + 2 < k) where
  room : suc k ≡ length (a ∷ p) + suc (k - length (a ∷ p))
  room = omega (arith, size)

  built :
      path_build dst (suc k) sep (some (a ∷ p)) (some (b ∷ f))
      ≡ measured (suc k) (
          strnpcpy_at
            (length ((a ∷ p) ++ (sep ∷ [])))
            (((a ∷ p) ++ (sep ∷ [])) ++ replicate (k - length (a ∷ p)) 0)
            (b ∷ f)
            (suc k - length (a ∷ p)))
  unfolding path_build build_in
  built =
      let big : ltb (suc k) 4 ≡ false = ground (arith, size) in
      let zeros : fill (suc k) dst ≡ some (replicate (suc k) 0) = fill_zeros_of dst (suc k) sized in
      rw (big, zeros, elsewhere)
        (below_lem (a ∷ p) (b ∷ f) sep k (k - length (a ∷ p)) p_nul sep_nul below_root room
          (omega (arith, size)))

  -- PathBuild into an array of `k + 1` bytes, for a parent directory that is neither empty, `.` nor the
  -- separator, and a name that is not empty, where the array has more than 3 bytes beyond the parent
  -- and a byte beyond the path and its NUL; no NUL is in the parent or is the separator. The result is
  -- the path's length, and the array holds the parent, the separator and the name, then only NULs.
  pub path_build_lem :
      length (a ∷ p) + length (b ∷ f) + 1 < k
      → path_build dst (suc k) sep (some (a ∷ p)) (some (b ∷ f)) ≡ (
          let path = (a ∷ p) ++ (sep ∷ b ∷ f) in
          some (pos (length path), (path ++ replicate (suc k - length path) 0, some (length path))))
  path_build_lem fits =
      built
      ∙ name_fits (a ∷ p) (b ∷ f) sep k (k - length (a ∷ p)) p_nul sep_nul below_root room
          (omega (arith, size)) (omega (arith, fits, size))

  -- Under the same conditions on the parent and the separator, where the path with its NUL does not
  -- fit the array, PathBuild writes the NUL behind the array's end: the room for the name is counted
  -- from before the separator.
  pub path_build_overflows :
      k < length (a ∷ p) + length (b ∷ f) + 1
      → path_build dst (suc k) sep (some (a ∷ p)) (some (b ∷ f)) ≡ none
  path_build_overflows long =
      built
      ∙ name_too_long (a ∷ p) (b ∷ f) sep k (k - length (a ∷ p)) p_nul sep_nul below_root room
          (omega (arith, size)) (omega (arith, long, size))
