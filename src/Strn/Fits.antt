-- ===== src/Strn/Fits.antt =====
-- Strncpy of a text that fits the array with a byte to spare, as the path buffers want it.
use libncftp.Base.{
  ℕ, zero, suc, ◌+◌, ◌-◌, ◌≤◌, ◌<◌, [], ◌∷◌, ◌++◌, some, ◌≡◌, refl, ◌∙◌, Bytes, length, take, drop,
  replicate, get_or, cstr, Lacks, arith, take_all,
}
use libncftp.Strn.{strncpy}
use libncftp.Strn.Copy.{padded, strncpy_lem, length-padded, cstr-padded}

get_or_zeros : (n i : ℕ) (rest : Bytes) → i < n → get_or (replicate n 0 ++ rest) i 0 ≡ 0
get_or_zeros zero i rest h = elim h [ ]
get_or_zeros (suc n) zero rest h = refl
get_or_zeros (suc n) (suc i) rest h = get_or_zeros n i rest (omega arith)

pub get_or_behind :
    (s rest : Bytes) (n i : ℕ)
    → length s ≤ i
    → i < length s + n
    → get_or (s ++ (replicate n 0 ++ rest)) i 0 ≡ 0
get_or_behind [] rest n i h room = get_or_zeros n i rest (omega arith)
get_or_behind (c ∷ s) rest n zero h room = elim h [ ]
get_or_behind (c ∷ s) rest n (suc i) h room = get_or_behind s rest n i (omega arith) (omega arith)

-- The array after the copy.
pub record Fits (a text b : Bytes) : Type 0 where
  pub copied : strncpy a text (length a) ≡ some b
  pub size : length b ≡ length a
  pub text_is : cstr b ≡ text
  pub spare : get_or b (length b - 2) 0 ≡ 0
  pub start : get_or b 0 0 ≡ get_or text 0 0

start_padded :
    (k : ℕ) (s rest : Bytes) → get_or (s ++ (replicate (suc k) 0 ++ rest)) 0 0 ≡ get_or s 0 0
start_padded k [] rest = refl
start_padded k (c ∷ s) rest = refl

pub strncpy-Fits :
    (a text : Bytes) → Lacks 0 text → length text + 1 < length a → (b : Bytes) × Fits a text b
unfolding padded
strncpy-Fits [] text nul h = elim h [ ]
strncpy-Fits (x ∷ a) text nul h =
    let k = length a in
    let whole : take k text ≡ text = take_all k text (omega arith) in
    let gap : suc k - length text ≡ suc (k - length text) = omega arith in
    let sized : length (padded k text (x ∷ a)) ≡ suc k =
      length-padded k text (x ∷ a) (omega arith) in
    (
      padded k text (x ∷ a),
      record {
        copied = strncpy_lem (x ∷ a) text k (omega arith);
        size = sized;
        text_is = cstr-padded [] text (x ∷ a) k tt nul ∙ whole;
        spare = rw sized (
            rw (whole) (
              get_or_behind text (drop (suc k) (x ∷ a)) (suc k - length text) (suc k - 2)
                (omega arith) (omega arith)));
        start = rw (whole, gap) (start_padded (k - length text) text (drop (suc k) (x ∷ a)));
      },
    )
