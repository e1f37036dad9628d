-- ===== src/Paths/DotDot/Laws.antt =====
-- The paths that PathContainsIntermediateDotDotSubDir finds.
use libncftp.Base.{
  ℕ, Bool, true, false, List, [], ◌∷◌, Bytes, codes, if◌then◌else◌, ◌==◌, ◌≡◌, refl, arith,
}
use libncftp.Strn.Token.{is_delim}
use libncftp.Strn.Token.Pieces.{onto_first, pieces}
use libncftp.Paths.DotDot.{
  is_slash, only_dots_left, goes_up, goes_up_later, path_contains_intermediate_dot_dot_sub_dir,
}

abbrev pub all_dots : Bytes → Bool
all_dots [] = true
all_dots (c ∷ t) = if c == b'.' then all_dots t else false

-- A directory name of two or more dots and nothing else.
abbrev pub is_dot_dot : Bytes → Bool
is_dot_dot [] = false
is_dot_dot (a ∷ []) = false
is_dot_dot (a ∷ b ∷ t) = if a == b'.' then (if b == b'.' then all_dots t else false) else false

abbrev pub any_dot_dot : List Bytes → Bool
any_dot_dot [] = false
any_dot_dot (t ∷ ts) = if is_dot_dot t then true else any_dot_dot ts

-- The names in a path.
abbrev pub names_of : Bytes → List Bytes
names_of s = pieces (codes "/\\") s

abbrev head_of : List Bytes → Bytes
head_of [] = []
head_of (t ∷ ts) = t

abbrev tail_of : List Bytes → List Bytes
tail_of [] = []
tail_of (t ∷ ts) = ts

head-onto_first : (c : ℕ) (ts : List Bytes) → head_of (onto_first c ts) ≡ c ∷ head_of ts
head-onto_first c [] = refl
head-onto_first c (t ∷ ts) = refl

tail-onto_first : (c : ℕ) (ts : List Bytes) → tail_of (onto_first c ts) ≡ tail_of ts
tail-onto_first c [] = refl
tail-onto_first c (t ∷ ts) = refl

-- The first name, and the others, byte by byte.
head-names_of :
    (c : ℕ) (s : Bytes)
    → head_of (names_of (c ∷ s)) ≡ (if is_slash c then [] else c ∷ head_of (names_of s))
unfolding pieces is_delim
head-names_of c s = ground (arith, head-onto_first c (names_of s))

tail-names_of :
    (c : ℕ) (s : Bytes)
    → tail_of (names_of (c ∷ s)) ≡ (if is_slash c then names_of s else tail_of (names_of s))
unfolding pieces is_delim
tail-names_of c s = ground (arith, tail-onto_first c (names_of s))

only_dots_left_lem : (s : Bytes) → only_dots_left s ≡ all_dots (head_of (names_of s))
unfolding only_dots_left
only_dots_left_lem [] = unfold pieces in refl
only_dots_left_lem (c ∷ s) = rw (head-names_of c s) (ground (arith, only_dots_left_lem s))

goes_up_lem : (s : Bytes) → goes_up s ≡ is_dot_dot (head_of (names_of s))
unfolding goes_up
goes_up_lem [] = unfold pieces in refl
goes_up_lem (a ∷ []) = rw (head-names_of a []) (unfold pieces in ground arith)
goes_up_lem (a ∷ b ∷ s) =
    rw (head-names_of a (b ∷ s), head-names_of b s) (ground (arith, only_dots_left_lem s))

any_dot_dot_lem :
    (ts : List Bytes)
    → any_dot_dot ts ≡ (if is_dot_dot (head_of ts) then true else any_dot_dot (tail_of ts))
any_dot_dot_lem [] = refl
any_dot_dot_lem (t ∷ ts) = refl

goes_up_later_lem : (s : Bytes) → goes_up_later s ≡ any_dot_dot (tail_of (names_of s))
unfolding goes_up_later
goes_up_later_lem [] = unfold pieces in refl
goes_up_later_lem (c ∷ s) =
    rw (tail-names_of c s)
      (ground (arith, goes_up_later_lem s, goes_up_lem s, any_dot_dot_lem (names_of s)))

-- The test is true exactly of the paths that have, between slashes or backslashes or at an end, a
-- name of two or more dots and nothing else.
pub path_contains_intermediate_dot_dot_sub_dir_lem :
    (s : Bytes) → path_contains_intermediate_dot_dot_sub_dir s ≡ any_dot_dot (names_of s)
unfolding path_contains_intermediate_dot_dot_sub_dir
path_contains_intermediate_dot_dot_sub_dir_lem s =
    rw (goes_up_lem s, goes_up_later_lem s, any_dot_dot_lem (names_of s))
