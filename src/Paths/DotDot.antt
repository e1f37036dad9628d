-- ===== src/Paths/DotDot.antt =====
-- PathContainsIntermediateDotDotSubDir of libncftp/rglob.c, on the text before the NUL.
pub mod Laws
use libncftp.Base.{ℕ, Bool, true, false, ◌&&◌, ◌||◌, [], ◌∷◌, Bytes, if◌then◌else◌, ◌==◌}

abbrev pub is_slash : ℕ → Bool
is_slash c = c == b'/' || c == b'\\'

-- `while (*a == '.') a++;`, and the test of the byte behind.
unfoldable pub only_dots_left : Bytes → Bool
only_dots_left [] = true
only_dots_left (c ∷ a) = let rest = only_dots_left a in if c == b'.' then rest else is_slash c

-- Two dots, and then only dots up to a slash or the end.
unfoldable pub goes_up : Bytes → Bool
unfolding only_dots_left
goes_up [] = false
goes_up (a ∷ []) = false
goes_up (a ∷ b ∷ s) = if a == b'.' then (if b == b'.' then only_dots_left s else false) else false

-- The loop over the text.
unfoldable pub goes_up_later : Bytes → Bool
unfolding goes_up
goes_up_later [] = false
goes_up_later (c ∷ s) =
    let rest = goes_up_later s in if is_slash c then (if goes_up s then true else rest) else rest

-- PathContainsIntermediateDotDotSubDir
unfoldable pub path_contains_intermediate_dot_dot_sub_dir : Bytes → Bool
unfolding goes_up_later goes_up only_dots_left
path_contains_intermediate_dot_dot_sub_dir s = if goes_up s then true else goes_up_later s
