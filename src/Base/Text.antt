-- ===== src/Base/Text.antt =====
-- Bytes and C strings. A `Bytes` that stands for a `char *` is the text before its NUL; one that
-- stands for a buffer holds every byte of it, and `cstr` reads the text that starts at its front.
use Prim.Native.Nat.{ℕ, zero, suc, ◌+◌, ◌-◌, ◌*◌}
use Prim.Native.Char.{code}
use Prim.Native.String.{String}
use mathlib.Core.Path.{◌≡◌, refl}
use mathlib.Core.Logic.{◌≢◌, ◌↔◌}
use mathlib.Core.Bool.{Bool, true, false, ◌&&◌}
use mathlib.Core.List.{List, [], ◌∷◌, ◌++◌}
use mathlib.Core.Option.{Option, none, some}
use native.Mathlib.Omega.{arith}
use libncftp.Base.Tests.{◌==◌, leb, if◌then◌else◌}
use libncftp.Base.Lists.{All}

abbrev pub Bytes : Type 0
Bytes = List ℕ

abbrev pub codes : String → Bytes
codes String.[] = []
codes (String.◌∷◌ c s) = code c ∷ codes s

-- The text of a buffer: its bytes before the first NUL.
unfoldable pub cstr : Bytes → Bytes
cstr [] = []
cstr (c ∷ s) = if c == 0 then [] else c ∷ cstr s

-- No byte of the text is `b`.
abbrev pub Lacks : ℕ → Bytes → Type 0
Lacks b = All (λ c. c ≢ b)

pub cstr-append : (s rest : Bytes) → Lacks 0 s → cstr (s ++ (0 ∷ rest)) ≡ s
unfolding cstr
cstr-append [] rest _ = refl
cstr-append (c ∷ s) rest (h, hs) = ground (arith, cstr-append s rest hs)

pub cstr-Lacks : (s : Bytes) → Lacks 0 s → cstr s ≡ s
unfolding cstr
cstr-Lacks [] _ = refl
cstr-Lacks (c ∷ s) (h, hs) = ground (arith, cstr-Lacks s hs)

-- `isdigit`
abbrev pub is_digit : ℕ → Bool
is_digit c = leb b'0' c && leb c b'9'

-- `strcmp(a, b) == 0`
unfoldable pub strcmp_eq : Bytes → Bytes → Bool
strcmp_eq [] [] = true
strcmp_eq (x ∷ xs) (y ∷ ys) = x == y && strcmp_eq xs ys
strcmp_eq _ _ = false

pub strcmp_eq_iff : (a b : Bytes) → (strcmp_eq a b ≡ true) ↔ (a ≡ b)
unfolding strcmp_eq
strcmp_eq_iff (x ∷ a) (y ∷ b) = ground (arith, strcmp_eq_iff a b)
strcmp_eq_iff _ _ = ground arith

pub strcmp_eq_refl : (a : Bytes) → strcmp_eq a a ≡ true
strcmp_eq_refl a = (strcmp_eq_iff a a).1 refl

-- `strncmp(a, b, n) == 0`
unfoldable pub strncmp_eq : ℕ → Bytes → Bytes → Bool
strncmp_eq zero _ _ = true
strncmp_eq (suc n) [] [] = true
strncmp_eq (suc n) (x ∷ xs) (y ∷ ys) = x == y && strncmp_eq n xs ys
strncmp_eq (suc n) _ _ = false

-- `atoi` on a text that starts with a digit: the value of its leading digits.
unfoldable pub atoi_from : ℕ → Bytes → ℕ
atoi_from n [] = n
atoi_from n (c ∷ s) = let more = atoi_from (n * 10 + (c - b'0')) s in if is_digit c then more else n

-- `strchr(s, b)`: what stands before the first `b`, and what stands behind it.
unfoldable pub split_first : ℕ → Bytes → Option (Bytes × Bytes)
split_first b [] = none
split_first b (c ∷ s) =
    if c == b
    then some ([], s)
    else (elim (split_first b s) [ none ↦ none | some (l, r) ↦ some (c ∷ l, r) ])

-- `strrchr(s, b)`: what stands before the last `b`, and what stands behind it.
unfoldable pub split_last : ℕ → Bytes → Option (Bytes × Bytes)
split_last b [] = none
split_last b (c ∷ s) = elim (split_last b s) [
  | none ↦ if c == b then some ([], s) else none
  | some (l, r) ↦ some (c ∷ l, r)
]

-- The text in a buffer, for code that looks for its end: `none` where there is no NUL.
unfoldable pub c_string : Bytes → Option Bytes
c_string [] = none
c_string (c ∷ s) =
    if c == 0 then some [] else (elim (c_string s) [ none ↦ none | some t ↦ some (c ∷ t) ])

pub c_string-Lacks : (s rest : Bytes) → Lacks 0 s → c_string (s ++ (0 ∷ rest)) ≡ some s
unfolding c_string
c_string-Lacks [] rest _ = refl
c_string-Lacks (c ∷ s) rest (h, hs) = ground (arith, c_string-Lacks s rest hs)
