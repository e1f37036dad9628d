-- ===== src/Paths/Build.antt =====
-- PathBuild of libncftp/u_misc.c. `errno` is not modelled. A `dst` of fewer than `dsize` bytes, and
-- every write behind the end of `dst`, is a fault, `none`. Strnpcpy never returns NULL, so the tests of
-- `dEnd` for it, and the result -2, are left out.
pub mod Laws
use libncftp.Base.{
  ℕ, zero, suc, ◌-◌, Bool, true, false, ◌||◌, [], ◌∷◌, Option, none, some, Bytes, codes,
  if◌then◌else◌, ◌==◌, leb, ltb, ℤ, pos, neg, get_or, cstr, strcmp_eq,
}
use libncftp.Strn.{fill, strnpcpy}

-- `Strnpcpy(dst + i, src, n)`: the array and the offset of the NUL.
pub strnpcpy_at : ℕ → Bytes → Bytes → ℕ → Option (Bytes × ℕ)
strnpcpy_at zero dst src n = strnpcpy dst src n
strnpcpy_at (suc i) [] src n = none
strnpcpy_at (suc i) (x ∷ dst) src n = elim (strnpcpy_at i dst src n) [
  | none ↦ none
  | some (d, e) ↦ some (x ∷ d, suc e)
]

-- The result, the array and what is stored in `*dResultingLength`.
abbrev pub Built : Type 0
Built = Option (ℤ × (Bytes × Option ℕ))

-- The tests behind the copies.
pub measured : ℕ → Option (Bytes × ℕ) → Built
measured dsize none = none
measured dsize (some (d, e)) =
    if get_or d (dsize - 2) 0 == 0 then some (pos e, (d, some e)) else some (neg 1, (d, some e))

-- The separator, unless the parent is the root directory, and the name; `used` is the length of the
-- parent, also where the separator was written.
pub add_name : ℕ → ℕ → Bytes → ℕ → Bytes → Built
add_name dsize dir_sep d used file_name =
    elim (if strcmp_eq (cstr d) (cstr (dir_sep ∷ []))
      then some (d, used)
      else strnpcpy_at used d (cstr (dir_sep ∷ [])) (dsize - used)) [
        | none ↦ none
        | some (d', e) ↦
            if leb (dsize - 2) used
            then some (neg 1, (d', some 0))
            else measured dsize (strnpcpy_at e d' file_name (dsize - used))
      ]

-- The path below a parent directory.
pub below : ℕ → ℕ → Option (Bytes × ℕ) → Bytes → Built
below dsize dir_sep none file_name = none
below dsize dir_sep (some (d, used)) file_name =
    if leb (dsize - 3) used
    then some (neg 1, (d, some 0))
    else add_name dsize dir_sep d used file_name

abbrev pub is_here : Option Bytes → Bool
is_here none = true
is_here (some []) = true
is_here (some (c ∷ parent)) = strcmp_eq (c ∷ parent) (codes ".")

abbrev pub name_or_here : Option Bytes → Bytes
name_or_here none = codes "."
name_or_here (some []) = codes "."
name_or_here (some (c ∷ name)) = c ∷ name

-- The three ways to build a path in the array `d` of NULs.
pub build_in : Bytes → ℕ → ℕ → Option Bytes → Option Bytes → Built
build_in d dsize dir_sep none file_name = measured dsize (strnpcpy d (name_or_here file_name) dsize)
build_in d dsize dir_sep (some parent) file_name =
    if is_here (some parent)
    then measured dsize (strnpcpy d (name_or_here file_name) dsize)
    else (elim file_name [
      | none ↦ measured dsize (strnpcpy d parent dsize)
      | some [] ↦ measured dsize (strnpcpy d parent dsize)
      | some (c ∷ name) ↦ below dsize dir_sep (strnpcpy d parent dsize) (c ∷ name)
    ])

-- PathBuild
unfoldable pub path_build : Bytes → ℕ → ℕ → Option Bytes → Option Bytes → Built
unfolding build_in below add_name measured strnpcpy_at
path_build dst dsize dir_sep parent_dir file_name =
    if ltb dsize 4 then some (neg 3, (dst, none)) else (elim (fill dsize dst) [
      | none ↦ none
      | some d ↦ build_in d dsize dir_sep parent_dir file_name
    ])
