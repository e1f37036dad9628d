-- ===== src/Strn/Token/Pieces.antt =====
-- The tokens that repeated calls give: Strtok gives every piece, strtokc those that are not empty.
use libncftp.Base.{
  ℕ, zero, suc, ◌≤◌, ◌<◌, ap, ◌∙◌, sym, true, false, List, [], ◌∷◌, Option, none, some, ◌≡◌, refl,
  inl, inr, Bytes, length, arith, if◌then◌else◌, Bool-cases,
}
use libncftp.Strn.Token.{is_delim, scan, strtok, eat, take_token, strtokc_token, strtokc}

-- Put a byte in front of the first piece.
abbrev pub onto_first : ℕ → List Bytes → List Bytes
onto_first c [] = (c ∷ []) ∷ []
onto_first c (t ∷ ts) = (c ∷ t) ∷ ts

-- The text cut at every delimiter: one piece more than there are delimiters.
unfoldable pub pieces : Bytes → Bytes → List Bytes
pieces delims [] = [] ∷ []
pieces delims (c ∷ s) =
    if is_delim delims c then [] ∷ pieces delims s else onto_first c (pieces delims s)

-- The pieces that are not empty.
abbrev pub words : List Bytes → List Bytes
words [] = []
words ([] ∷ ts) = words ts
words ((c ∷ t) ∷ ts) = (c ∷ t) ∷ words ts

-- All that `Strtok(NULL, delims)` returns, called `n` times from `p`.
pub all_strtok : Bytes → ℕ → Option Bytes → List Bytes
all_strtok delims zero p = []
all_strtok delims (suc n) p =
    let (t?, q) = strtok delims none p in elim t? [ none ↦ [] | some t ↦ t ∷ all_strtok delims n q ]

-- All that `strtokc(NULL, delims, &context)` returns, called `n` times from `context`.
unfoldable pub all_strtokc : Bytes → ℕ → Option Bytes → List Bytes
all_strtokc delims zero ctx = []
all_strtokc delims (suc n) ctx =
    let (t?, q) = strtokc none (some delims) ctx in
    elim t? [ none ↦ [] | some t ↦ t ∷ all_strtokc delims n q ]

module _ (delims : Bytes) where
  -- The pieces of a text are the first token, then the pieces of what Strtok keeps.
  abbrev Cut : Bytes × Option Bytes → Bytes → Type 0
  Cut (t, none) s = pieces delims s ≡ t ∷ []
  Cut (t, some r) s = (pieces delims s ≡ t ∷ pieces delims r) × (length r < length s)

  scan-Cut : (s : Bytes) → Cut (scan delims s) s
  unfolding scan pieces
  scan-Cut [] = refl
  scan-Cut (c ∷ s) = ground (arith, scan-Cut s)

  all_strtok-Cut :
      (n : ℕ) (s : Bytes) (cut : Bytes × Option Bytes)
      → scan delims s ≡ cut
      → Cut cut s
      → ((r : Bytes) → cut.1 ≡ some r → all_strtok delims n (some r) ≡ pieces delims r)
      → all_strtok delims n none ≡ []
      → all_strtok delims (suc n) (some s) ≡ pieces delims s
  unfolding all_strtok strtok
  all_strtok-Cut n s (t, none) e h ih stop = rw e (rw (h, stop))
  all_strtok-Cut n s (t, some r) e h ih stop = rw e (rw (h.0, ih r refl))

  all_strtok-none : (n : ℕ) → all_strtok delims n none ≡ []
  unfolding all_strtok strtok
  all_strtok-none zero = refl
  all_strtok-none (suc n) = refl

-- Calling Strtok until it returns NULL gives exactly the pieces of the text, the empty ones included,
-- if the calls are more than the text has bytes.
pub all_strtok-pieces :
    (delims : Bytes) (n : ℕ) (s : Bytes)
    → length s < n
    → all_strtok delims n (some s) ≡ pieces delims s
all_strtok-pieces delims zero s h = elim h [ ]
all_strtok-pieces delims (suc n) s h =
    all_strtok-Cut delims n s (scan delims s) refl (scan-Cut delims s)
      (λ r e. all_strtok-pieces delims n r (shorter r e (scan delims s) refl (scan-Cut delims s)))
      (all_strtok-none delims n)
  where
    shorter :
        (r : Bytes)
        → (scan delims s).1 ≡ some r
        → (cut : Bytes × Option Bytes) → scan delims s ≡ cut
        → Cut delims cut s
        → length r < n
    shorter r e (t, none) eq c = absurd (cc)
    shorter r e (t, some r') eq c = let same : r ≡ r' = cc in omega (arith, ap length same)

module _ (delims : Bytes) where
  -- What `eat` skips holds no word.
  abbrev Skips : Option Bytes → Bytes → Type 0
  Skips none s = words (pieces delims s) ≡ []
  Skips (some []) s = ⊥
  Skips (some (c ∷ t)) s =
      (words (pieces delims s) ≡ words (pieces delims (c ∷ t)))
      × (is_delim delims c ≡ false)
      × (length t < length s)

  eat-Skips : (s : Bytes) → Skips (eat delims s) s
  unfolding eat pieces
  eat-Skips [] = refl
  eat-Skips (c ∷ s) = elim (Bool-cases (is_delim delims c)) [
    | inl d ↦ rw d (further d (eat delims s) (eat-Skips s))
    | inr n ↦ rw n (refl, n, omega arith)
  ]
    where
      further : is_delim delims c ≡ true → (o : Option Bytes) → Skips o s → Skips o (c ∷ s)
      further d none h = ground arith
      further d (some []) h = h
      further d (some (b ∷ t)) h = ground arith

  words-onto_first :
      (c : ℕ) (t : Bytes) (ps qs : List Bytes)
      → ps ≡ t ∷ qs
      → words (onto_first c ps) ≡ (c ∷ t) ∷ words qs
  words-onto_first c t ps qs e = rw e

  -- A token ends where the first piece ends; what is kept has the words of the other pieces.
  take_token-pieces :
      (s : Bytes)
      → (rest : List Bytes) × (pieces delims s ≡ (take_token delims s).0 ∷ rest)
        × (words rest ≡ words (pieces delims (take_token delims s).1))
        × (length (take_token delims s).1 ≤ length s)
  unfolding take_token pieces
  take_token-pieces [] = ([], refl, refl, omega arith)
  take_token-pieces (c ∷ s) =
      let (rest, cut, same, shorter) = take_token-pieces s in
      elim (Bool-cases (is_delim delims c)) [
        | inl d ↦ rw d (pieces delims s, refl, refl, omega arith)
        | inr n ↦ rw n (rest, rw cut, same, omega arith)
      ]

  -- At a byte that is no delimiter the token is the first word.
  take_token-words :
      (c : ℕ) (t : Bytes)
      → is_delim delims c ≡ false
      → (u : Bytes) × ((take_token delims (c ∷ t)).0 ≡ c ∷ u)
        × (words (pieces delims (c ∷ t))
            ≡ (c ∷ u) ∷ words (pieces delims (take_token delims (c ∷ t)).1))
        × (length (take_token delims (c ∷ t)).1 ≤ length t)
  unfolding take_token pieces
  take_token-words c t n =
      let (rest, cut, same, shorter) = take_token-pieces t in
      rw n ((take_token delims t).0, refl, rw cut (rw same), shorter)

  all_strtokc_step :
      (n : ℕ) (s : Bytes) {o : Option Bytes}
      → eat delims s ≡ o
      → all_strtokc delims (suc n) (some s) ≡ (
          let (t?, q) = strtokc_token delims o in
          elim t? [ none ↦ [] | some t ↦ t ∷ all_strtokc delims n q ])
  unfolding all_strtokc strtokc
  all_strtokc_step n s e = λ i.
      let (t?, q) = strtokc_token delims (e i) in
      elim t? [ none ↦ [] | some t ↦ t ∷ all_strtokc delims n q ]

-- Calling strtokc until it returns NULL gives exactly the pieces of the text that are not empty, in
-- order, if the calls are more than the text has bytes.
pub all_strtokc-words :
    (delims : Bytes) (n : ℕ) (s : Bytes)
    → length s < n
    → all_strtokc delims n (some s) ≡ words (pieces delims s)
unfolding strtokc_token
all_strtokc-words delims zero s h = elim h [ ]
all_strtokc-words delims (suc n) s h =
    go (eat delims s) refl (eat-Skips delims s) (all_strtokc-words delims n)
  where
    go :
        (o : Option Bytes)
        → eat delims s ≡ o
        → Skips delims o s
        → ((r : Bytes) → length r < n → all_strtokc delims n (some r) ≡ words (pieces delims r))
        → all_strtokc delims (suc n) (some s) ≡ words (pieces delims s)
    go none e skip ih = all_strtokc_step delims n s e ∙ sym skip
    go (some []) e skip ih = absurd skip
    go (some (c ∷ t)) e (same, plain, short) ih =
        let (u, token, found, left) = take_token-words delims c t plain in
        all_strtokc_step delims n s e
        ∙ rw (token, ih (take_token delims (c ∷ t)).1 (omega arith), same, found)
