-- ===== src/Commands/Glob/Collapse.antt =====
-- What RemoteGlobCollapse lets through, against a server that lists names of its own choice.
use libncftp.Base.{
  ℕ, ◌+◌, Bool, true, false, [], ◌∷◌, ◌++◌, List, Option, none, some, Bytes, ◌||◌, length, drop,
  ◌≡◌, refl, ◌⊎◌, inl, inr, arith, Bool-cases, All,
}
use libncftp.Conn.{Conn, M}
use libncftp.Reply.Frame.{MemoryOk}
use libncftp.Paths.DotDot.{
  is_slash, only_dots_left, goes_up, path_contains_intermediate_dot_dot_sub_dir,
}
use libncftp.Commands.Glob.{
  strncasecmp_eq, before_first, any, is_prev, collapse_prefixed, collapse_plain, collapse_lines,
  collapse_with, collapse_in, pattern_dir, pattern_prefix, remote_glob_collapse,
}

-- The directory of a pattern, or nothing.
abbrev pub dir_text : Option Bytes → Bytes
dir_text none = []
dir_text (some dir) = dir

-- A name of one component: behind the pattern's prefix, where it does not lead up; or behind the
-- pattern's directory.
abbrev pub Tame : Bytes → Option Bytes → Bytes → Type 0
Tame prefix dir l =
    ((name : Bytes) × (l ≡ prefix ++ name) × (any is_slash name ≡ false) × (goes_up name ≡ false))
    ⊎ ((name : Bytes) × (l ≡ dir_text dir ++ name) × (any is_slash name ≡ false))

any-before_first : (s : Bytes) → any is_slash (before_first is_slash s) ≡ false
any-before_first [] = refl
any-before_first (c ∷ s) = ground (arith, any-before_first s)

only_dots_left-before_first :
    (s : Bytes) → only_dots_left (before_first is_slash s) ≡ only_dots_left s
unfolding only_dots_left
only_dots_left-before_first [] = refl
only_dots_left-before_first (c ∷ s) = ground (arith, only_dots_left-before_first s)

goes_up-before_first : (s : Bytes) → goes_up (before_first is_slash s) ≡ goes_up s
unfolding goes_up only_dots_left
goes_up-before_first [] = refl
goes_up-before_first (a ∷ []) = ground arith
goes_up-before_first (a ∷ b ∷ s) = ground (arith, only_dots_left-before_first s)

-- The loop ends with tame names, and changes nothing but the count of requests for memory.
pub data Collapsed (prefix : Bytes) (dir : Option Bytes) (c : Conn)
    (out : Option (List Bytes × Conn)) : Type 0 where
  collapsed :
      (names : List Bytes) (n : ℕ)
      → All (Tame prefix dir) names
      → out ≡ some (names, record c { allocs = n })
      → Collapsed prefix dir c out

module _ (prefix : Bytes) (dir : Option Bytes) (c : Conn) (memory : MemoryOk c) where
  -- The rest of the loop, from any count on.
  abbrev Goes : M (List Bytes) → Type 0
  Goes m = (n : ℕ) → Collapsed prefix dir c (m (record c { allocs = n }))

  collapse_prefixed-Collapsed :
      (behind : Bytes) (prev : Bool) (left : List Bytes) (skip go_on : M (List Bytes))
      → Goes skip
      → Goes go_on
      → Goes (
          collapse_prefixed prefix
            (before_first is_slash behind)
            (prev || path_contains_intermediate_dot_dot_sub_dir behind)
            left
            skip
            go_on)
  unfolding collapse_prefixed path_contains_intermediate_dot_dot_sub_dir
  collapse_prefixed-Collapsed behind true left skip go_on hs hg n = rw (memory n) (hs (n + 1))
  collapse_prefixed-Collapsed behind false left skip go_on hs hg n =
      elim (Bool-cases (path_contains_intermediate_dot_dot_sub_dir behind)) [
        | inl up ↦ rw (memory n, up) (hs (n + 1))
        | inr fine ↦ elim (hg (n + 1 + 1)) [
          | collapsed names k tame e ↦
              let level : goes_up behind ≡ false = ground (arith, fine) in
              let cut : goes_up (before_first is_slash behind) ≡ false =
                rw (goes_up-before_first behind) level in
              rw (memory n, fine, memory (n + 1), e)
                (collapsed _ k (inl (_, refl, any-before_first behind, cut), tame) refl)
        ]
      ]

  collapse_plain-Collapsed :
      (l : Bytes) (ls : List Bytes) (skip : M (List Bytes))
      → any is_slash l ≡ false
      → Goes skip
      → Goes (collapse_plain dir l ls skip)
  unfolding collapse_plain
  collapse_plain-Collapsed l ls skip plain hs n = go dir refl
    where
      go :
          (o : Option Bytes)
          → dir ≡ o
          → Collapsed prefix dir c (collapse_plain o l ls skip (record c { allocs = n }))
      go none e = elim (hs n) [
        | collapsed names k tame e' ↦ rw e' (collapsed _ k (inr (l, rw e refl, plain), tame) refl)
      ]
      go (some d) e = elim (hs (n + 1)) [
        | collapsed names k tame e' ↦
            rw (memory n, e') (collapsed _ k (inr (l, rw e refl, plain), tame) refl)
      ]

  collapse_lines-Collapsed :
      (prev : Option Bytes) (list : List Bytes) → Goes (collapse_lines prefix dir prev list)
  unfolding collapse_lines
  collapse_lines-Collapsed prev [] n = collapsed [] n tt refl
  collapse_lines-Collapsed prev (l ∷ ls) n =
      let behind = drop (length prefix) l in
      let cur = before_first is_slash behind in
      let skip = collapse_lines-Collapsed prev ls in
      elim (Bool-cases (strncasecmp_eq (length prefix) l prefix)) [
        | inl same ↦ rw same (
            collapse_prefixed-Collapsed behind (is_prev cur prev) (l ∷ ls) _ _ skip
              (collapse_lines-Collapsed (some cur) ls) n)
        | inr other ↦ elim (Bool-cases (any is_slash l)) [
          | inl deep ↦ rw (other, deep) (skip n)
          | inr plain ↦ rw (other, plain) (collapse_plain-Collapsed l ls _ plain skip n)
        ]
      ]

-- While memory is at hand, every name that RemoteGlobCollapse leaves in the list, whatever the
-- server listed, is one component behind what the caller's pattern fixes: the pattern up to its first
-- wildcard, followed by a name without a slash or backslash that is not "..", "..." or longer; or the
-- pattern's directory, up to its last slash, followed by a name without a slash or backslash.
pub remote_glob_collapse-Tame :
    (pattern : Bytes) (list : List Bytes) (c : Conn)
    → MemoryOk c
    → (names : List Bytes) × (n : ℕ) × (remote_glob_collapse pattern list c
        ≡ some (names, record c { allocs = n }))
      × All (Tame (pattern_prefix pattern) (pattern_dir pattern)) names
unfolding remote_glob_collapse collapse_in collapse_with
remote_glob_collapse-Tame pattern list c memory = go (pattern_dir pattern)
  where
    go :
        (dir : Option Bytes)
        → (names : List Bytes) × (n : ℕ) × (collapse_in dir pattern list c
            ≡ some (names, record c { allocs = n }))
          × All (Tame (pattern_prefix pattern) dir) names
    go none =
        elim (collapse_lines-Collapsed (pattern_prefix pattern) none c memory none list
          (c.allocs + 1)) [ collapsed names n tame e ↦ (names, n, rw (memory c.allocs, e), tame) ]
    go (some dir) =
        elim (collapse_lines-Collapsed (pattern_prefix pattern) (some dir) c memory none list
          (c.allocs + 1 + 1)) [
            | collapsed names n tame e ↦
                (names, n, rw (memory c.allocs, memory (c.allocs + 1), e), tame)
          ]
