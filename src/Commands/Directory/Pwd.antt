-- ===== src/Commands/Directory/Pwd.antt =====
-- Reading the directory out of the reply to PWD.
use libncftp.Base.{
  ℕ, [], ◌∷◌, ◌++◌, none, some, Bytes, ◌≡◌, refl, arith, Lacks, All-append, split_first, split_last,
  append_assoc,
}
use libncftp.Commands.Directory.{pwd_text, cwd_text}

pub split_last-Lacks : (b : ℕ) (s : Bytes) → Lacks b s → split_last b s ≡ none
unfolding split_last
split_last-Lacks b [] h = refl
split_last-Lacks b (c ∷ s) (h, hs) = ground (arith, split_last-Lacks b s hs)

pub split_last_lem :
    (b : ℕ) (s rest : Bytes) → Lacks b rest → split_last b (s ++ (b ∷ rest)) ≡ some (s, rest)
unfolding split_last
split_last_lem b [] rest h = ground (arith, split_last-Lacks b rest h)
split_last_lem b (c ∷ s) rest h = ground (arith, split_last_lem b s rest h)

pub split_first_lem :
    (b : ℕ) (s rest : Bytes) → Lacks b s → split_first b (s ++ (b ∷ rest)) ≡ some (s, rest)
unfolding split_first
split_first_lem b [] rest h = ground arith
split_first_lem b (c ∷ s) rest (h, hs) = ground (arith, split_first_lem b s rest hs)

pub split_first-Lacks : (b : ℕ) (s : Bytes) → Lacks b s → split_first b s ≡ none
unfolding split_first
split_first-Lacks b [] h = refl
split_first-Lacks b (c ∷ s) (h, hs) = ground (arith, split_first-Lacks b s hs)

-- From a reply that quotes the directory, with no quote before or behind it, FTPGetCWD reads exactly
-- the directory, whatever it holds, quotes included; FTPChdirAndGetCWD reads the same where the text
-- begins with the quote. A reply without quotes gives FTPGetCWD the text before the first space; if
-- there is no space either, nothing is read.
pub pwd_text_lem :
    (lead dir rest word : Bytes)
    → Lacks b'"' lead
    → Lacks b'"' rest
    → Lacks b' ' word
    → Lacks b'"' word
    → (pwd_text (lead ++ (b'"' ∷ (dir ++ (b'"' ∷ rest)))) ≡ some dir)
      × (cwd_text (b'"' ∷ (dir ++ (b'"' ∷ rest))) ≡ some dir)
      × (pwd_text (word ++ (b' ' ∷ rest)) ≡ some word)
      × (pwd_text word ≡ none)
unfolding pwd_text cwd_text
pwd_text_lem lead dir rest word hl hr hs hq = (
  rw (← append_assoc lead (b'"' ∷ dir) (b'"' ∷ rest)) (
      rw (
        split_last_lem b'"' (lead ++ (b'"' ∷ dir)) rest hr,
        pwd_text,
        split_first_lem b'"' lead dir hl,
      )),
  rw (split_last_lem b'"' dir rest hr, cwd_text),
  (rw (
    split_last-Lacks b'"' (word ++ (b' ' ∷ rest))
        (All-append _ word (b' ' ∷ rest) hq (omega arith, hr)),
    pwd_text,
    split_first_lem b' ' word rest hs,
  )),
  (rw (split_last-Lacks b'"' word hq, pwd_text, split_first-Lacks b' ' word hs)),
)
