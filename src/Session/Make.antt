-- ===== src/Session/Make.antt =====
-- FTPMkdir2 in a session: the search for a parent, and the making of a tree.
use libncftp.Base.{
  ℕ, zero, suc, ◌+◌, ◌<◌, Bool, true, false, [], ◌∷◌, ◌++◌, Option, none, some, Bytes, codes,
  if◌then◌else◌, pos, negsuc, int_eq, length, take, drop, length-drop, ◌≡◌, refl, arith, ◌==◌,
  split_first, split_last,
}
use libncftp.Conn.{Conn, M}
use libncftp.Conn.Errors.{k_no_err}
use libncftp.Commands.Mkdir.{
  strip_slashes, in_root, split_delim, split_next, Parent, no_parent, parent, find_parent, Made,
  gave_up, made, make_step, make_each, make_and_go_back, make_tree, try_parent, make_next,
  make_from, make_path, mkdir_steps, mkdir2,
}
use libncftp.Commands.Buf.{make_one}
use libncftp.Session.Ready.{
  Ready, Safe, ran, Runs, Settled, Safe-choice, ftp_cmd-Runs, Runs-check_magic, Runs-fail_with,
}
use libncftp.Session.Plain.{chdir-Runs}
use libncftp.Session.Back.{
  go_back-Runs, note_cwd-Runs, already_there-Runs, make_one-Runs, make_in_root-Runs,
}

-- The lengths of what stands before a delimiter and behind it.
abbrev Parts : ℕ → Option (Bytes × Bytes) → Type 0
Parts n none = Unit
Parts n (some (l, r)) = n ≡ length l + suc (length r)

split_last-Parts : (b : ℕ) (s : Bytes) → Parts (length s) (split_last b s)
unfolding split_last
split_last-Parts b [] = tt
split_last-Parts b (c ∷ s) = go (split_last b s) (split_last-Parts b s)
  where
    here : (t : Bool) → Parts (suc (length s)) (if t then some ([], s) else none)
    here true = omega arith
    here false = tt

    go :
        (o : Option (Bytes × Bytes))
        → Parts (length s) o
        → Parts (suc (length s)) (elim o as (λ _. Option (Bytes × Bytes)) [
          | none ↦ if c == b then some ([], s) else none
          | some (l, r) ↦ some (c ∷ l, r)
        ])
    go none h = here (c == b)
    go (some (l, r)) h = omega arith

split_first-Parts : (b : ℕ) (s : Bytes) → Parts (length s) (split_first b s)
unfolding split_first
split_first-Parts b [] = tt
split_first-Parts b (c ∷ s) = here (c == b) (split_first b s) (split_first-Parts b s)
  where
    here :
        (t : Bool) (o : Option (Bytes × Bytes))
        → Parts (length s) o
        → Parts (suc (length s)) (
            if t then some ([], s) else elim o as (λ _. Option (Bytes × Bytes)) [
              | none ↦ none
              | some (l, r) ↦ some (c ∷ l, r)
            ])
    here true o h = omega arith
    here false none h = tt
    here false (some (l, r)) h = omega arith

split_delim-Parts : (s : Bytes) → Parts (length s) (split_delim s)
unfolding split_delim
split_delim-Parts s = go (split_last b'/' s) (split_last-Parts b'/' s)
  where
    go :
        (o : Option (Bytes × Bytes))
        → Parts (length s) o
        → Parts (length s) (elim o as (λ _. Option (Bytes × Bytes)) [
          | some (before, behind) ↦ some (before, behind)
          | none ↦ split_last b'\\' s
        ])
    go none h = split_last-Parts b'\\' s
    go (some (l, r)) h = h

-- How the search ends.
abbrev Found : Parent → Type 0
Found (no_parent e) = Settled e
Found (parent n) = Unit

try_parent-Runs :
    (next_round : Bytes → M Parent) (dir : Bytes) (o : Option (Bytes × Bytes))
    → Parts (length dir) o
    → ((s : Bytes) → length s < length dir → Runs Found (next_round s))
    → Runs Found (try_parent next_round dir o)
unfolding try_parent
try_parent-Runs next_round [] none p next c r = ran _ (record c { err_no = _ }) tt r refl
try_parent-Runs next_round (_ ∷ _) none p next c r = ran _ c tt r refl
try_parent-Runs next_round dir (some ([], behind)) p next c r =
    ran _ (record c { err_no = _ }) tt r refl
try_parent-Runs next_round dir (some (b ∷ before, behind)) p next c r =
    elim (chdir-Runs (some (b ∷ before)) c r) [
      | ran a d _ rd e ↦ rw e (
          Safe-choice Found (int_eq a (pos 0)) _ _ d (ran _ d tt rd refl)
            (next (b ∷ before) (omega arith) d rd))
    ]

-- The search ends within as many rounds as the text has bytes.
find_parent-Runs : (n : ℕ) (dir : Bytes) → length dir < n → Runs Found (find_parent n dir)
unfolding find_parent
find_parent-Runs zero dir h c r = absurd (omega arith)
find_parent-Runs (suc n) dir h c r =
    try_parent-Runs (find_parent n) dir (split_delim dir) (split_delim-Parts dir)
      (λ s less. find_parent-Runs n s (omega arith)) c r

-- How the making ends.
abbrev Ended : Made → Type 0
Ended (gave_up e) = Settled e
Ended (made e) = Settled e

make_step-Runs : (path : Bytes) (next : M Made) → Runs Ended next → Runs Ended (make_step path next)
unfolding make_step
make_step-Runs path next runs c r = elim (ftp_cmd-Runs (codes "MKD " ++ path) c r) [
  | ran (negsuc n) d _ rd e ↦ rw e (ran _ d tt rd refl)
  | ran (pos n) d _ rd e ↦
      rw e
        (Safe-choice Ended (n == 2) _ _ d (runs d rd) (ran _ (record d { err_no = _ }) tt rd refl))
]

abbrev PartsWith : ℕ → Option (ℕ × Bytes × Bytes) → Type 0
PartsWith n none = Unit
PartsWith n (some (b, l, r)) = length r < n

split_next-Parts : (s : Bytes) → PartsWith (length s) (split_next s)
unfolding split_next
split_next-Parts s = go (split_first b'/' s) (split_first-Parts b'/' s)
  where
    other :
        (o : Option (Bytes × Bytes))
        → Parts (length s) o
        → PartsWith (length s) (elim o as (λ _. Option (ℕ × Bytes × Bytes)) [
          | some (before, behind) ↦ some (b'\\', before, behind)
          | none ↦ none
        ])
    other none h = tt
    other (some (l, r)) h = omega arith

    go :
        (o : Option (Bytes × Bytes))
        → Parts (length s) o
        → PartsWith (length s) (elim o as (λ _. Option (ℕ × Bytes × Bytes)) [
          | some (before, behind) ↦ some (b'/', before, behind)
          | none ↦ elim (split_first b'\\' s) [
            | some (before, behind) ↦ some (b'\\', before, behind)
            | none ↦ none
          ]
        ])
    go none h = other (split_first b'\\' s) (split_first-Parts b'\\' s)
    go (some (l, r)) h = omega arith

make_each-Runs : (n : ℕ) (done s : Bytes) → length s < n → Runs Ended (make_each n done s)
unfolding make_each make_next
make_each-Runs zero done s h c r = absurd (omega arith)
make_each-Runs (suc n) done s h c r =
    go (split_next s) (split_next-Parts s) (λ d s' less. make_each-Runs n d s' less)
  where
    go :
        (o : Option (ℕ × Bytes × Bytes))
        → PartsWith (length s) o
        → ((d s' : Bytes) → length s' < n → Runs Ended (make_each n d s'))
        → Safe Ended (make_next (make_each n) done s o c)
    go none p next = make_step-Runs (done ++ s) _ (λ d rd. ran _ d refl rd refl) c r
    go (some (b, before, [])) p next = ran _ c refl r refl
    go (some (b, before, x ∷ behind)) p next =
        make_step-Runs (done ++ before) _ (next _ (x ∷ behind) (omega arith)) c r

make_and_go_back-Runs :
    (cur_dir : Option Bytes) (end : Made) → Ended end → Runs Settled (make_and_go_back cur_dir end)
unfolding make_and_go_back
make_and_go_back-Runs cur_dir (gave_up e) h c r = ran e c h r refl
make_and_go_back-Runs cur_dir (made e) h c r = elim (go_back-Runs cur_dir c r) [
  | ran (pos n) d _ rd eq ↦
      rw eq (Safe-choice Settled (int_eq e (pos 0)) _ _ d (ran e d h rd refl) (ran e d h rd refl))
  | ran (negsuc n) d _ rd eq ↦ rw eq (
      Safe-choice Settled (int_eq e (pos 0)) _ _ d (ran _ (record d { err_no = _ }) tt rd refl)
        (ran e d h rd refl))
]

make_from-Runs :
    (cur_dir : Option Bytes) (dir : Bytes) (p : Parent)
    → Found p
    → Runs Settled (make_from cur_dir dir p)
unfolding make_from
make_from-Runs cur_dir dir (no_parent e) h c r = ran e c h r refl
make_from-Runs cur_dir dir (parent n) h c r =
    elim (make_each-Runs (suc (length dir)) [] (drop n dir) (omega (arith, length-drop n dir)) c
      r) [ ran end d p rd e ↦ rw e (make_and_go_back-Runs cur_dir end p d rd) ]

make_path-Runs : (cur_dir : Option Bytes) (dir : Bytes) → Runs Settled (make_path cur_dir dir)
unfolding make_path
make_path-Runs cur_dir dir c r =
    Safe-choice Settled (in_root dir) _ _ c (make_in_root-Runs dir c r)
      (elim (find_parent-Runs (suc (length dir)) dir (omega arith) c r) [
        | ran p d h rd e ↦ rw e (make_from-Runs cur_dir dir p h d rd)
      ])

-- A path to make with its parents has a name in its first 511 bytes: of slashes alone, FTPMkdir2
-- reads in front of its array.
abbrev pub Named : Option Bytes → Type 0
Named none = Unit
Named (some dir) = (t : Bytes) × (strip_slashes (take 511 dir) ≡ some t)

mkdir_steps-Runs :
    (recurse : Bool) (cur_dir : Option Bytes) (dir : Bytes)
    → (recurse ≡ true → Named (some dir))
    → Runs Settled (mkdir_steps recurse cur_dir dir)
unfolding mkdir_steps make_tree
mkdir_steps-Runs recurse cur_dir dir named c r = elim (note_cwd-Runs cur_dir c r) [
  | ran _ d1 _ rd1 e1 ↦ rw e1 (elim (chdir-Runs (some dir) d1 rd1) [
    | ran a d2 _ rd2 e2 ↦ rw e2 (
        Safe-choice Settled (int_eq a k_no_err) _ _ d2 (already_there-Runs cur_dir d2 rd2)
          (go recurse named d2 rd2))
  ])
]
  where
    go :
        (b : Bool)
        → (b ≡ true → Named (some dir))
        → Runs Settled (if b then make_tree cur_dir dir else make_one dir)
    go true named c r = let (t, e) = named refl in rw (e, make_tree) (make_path-Runs cur_dir t c r)
    go false named c r = make_one-Runs dir c r

-- From a ready connection block, for which the stack has a NUL behind the fourth byte of GetResponse's
-- line buffer, FTPMkdir2 ends, without a fault, whatever the server does: the search
-- for a parent that exists and the making of the directories below it take no more rounds than the
-- path has bytes. The result is kNoErr or a negative error, and the block is ready again. A path to
-- make with its parents is not made of slashes alone.
pub mkdir2-Runs :
    (new_dir : Option Bytes) (recurse : Bool) (cur_dir : Option Bytes)
    → (recurse ≡ true → Named new_dir)
    → (c : Conn) → Ready c
    → Safe Settled (mkdir2 new_dir recurse cur_dir c)
unfolding mkdir2
mkdir2-Runs none recurse cur_dir named c r =
    Runs-check_magic Settled _ (Runs-fail_with Settled _ tt) c r
mkdir2-Runs (some []) recurse cur_dir named c r =
    Runs-check_magic Settled _ (Runs-fail_with Settled _ tt) c r
mkdir2-Runs (some (b ∷ dir)) recurse cur_dir named c r =
    rw r.genuine (mkdir_steps-Runs recurse cur_dir (b ∷ dir) named c r)
