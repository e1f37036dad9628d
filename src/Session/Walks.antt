-- ===== src/Session/Walks.antt =====
-- FTPGetCWD in a session.
use libncftp.Base.{
  zero, suc, ◌+◌, ◌-◌, ◌≤◌, Bool, true, false, [], ◌∷◌, List, Option, none, some, Bytes, codes,
  if◌then◌else◌, ℤ, pos, negsuc, is_neg, length, length-set, set, ◌≡◌, refl, arith, Bool-cases, inl,
  inr, ◌==◌, ltb, not, get_or, cstr, ==_iff,
}
use libncftp.Conn.{Conn, M, ◌>>=◌}
use libncftp.Conn.Errors.{k_no_err, k_err_path_too_long}
use libncftp.Reply.{Response, empty_response, done_with_response}
use libncftp.Command.Asking.{heard, unheard, r_cmd-Asked}
use libncftp.Command.Framing.{after_write}
use libncftp.Command.Exchange.{done_with_response_lem}
use libncftp.Commands.Directory.{
  Destination, nowhere, cache, array, blank, truncated, pointee, check_length, use_pwd, ask_pwd,
  get_cwd_with, get_cwd_to, get_cwd, pwd_text, invalidate,
}
use libncftp.Session.Ready.{
  Ready, Safe, ran, Runs, Settled, Safe-choice, Sized, Present, Room, Ready-Keeps,
  init_response-Runs, done_with_response-Ready,
}
use libncftp.Session.Plain.{Ready-forget_cwd}
use libncftp.Session.Destination.{
  ran_with, Sound, GoodOut, copy_out-GoodOut, SafeWith, untouched-GoodOut, store_cwd-Stored,
  Ready-blank, Present-blank,
}

-- The result of FTPGetCWD before its last test: where it is not negative there is a cache.
abbrev pub Fetched : Destination → ℤ × Bytes → Conn → Type 0
Fetched to (e, out) d = Settled e × GoodOut to out × (is_neg e ≡ false → Present d.cwd)

SafeWith-choice :
    {A : Type 0} (P : A → Conn → Type 0) (b : Bool) (x y : M A) (c : Conn)
    → SafeWith P (x c)
    → SafeWith P (y c)
    → SafeWith P ((if b then x else y) c)
SafeWith-choice P true x y c hx hy = hx
SafeWith-choice P false x y c hx hy = hy

use_pwd-Fetched :
    (to : Destination) (result : ℤ) (msg : List Bytes) (c : Conn)
    → Sound to
    → Ready c
    → (is_neg result ≡ false → (1 ≤ length msg) × Present c.cwd)
    → SafeWith (Fetched to) (use_pwd to result msg c)
unfolding use_pwd
use_pwd-Fetched to (negsuc n) msg c sound r has =
    ran_with _ (record c { cwd = blank c.cwd }) (tt, untouched-GoodOut to sound, λ h. absurd (cc))
      (Ready-blank c r) refl
use_pwd-Fetched to (pos n) [] c sound r has = let (one, _) = has refl in absurd (omega arith)
use_pwd-Fetched to (pos n) (text ∷ others) c sound r has =
    let c' = record c { cwd = blank c.cwd } in
    let (_, there) = has refl in
    SafeWith-choice (Fetched to) (n == 2) _ _ c'
      (elim (store_cwd-Stored to (pwd_text text) c' sound (Ready-blank c r)) [
        | ran_with out d (good, kept) rd e ↦
            rw e (ran_with _ d (refl, good, λ _. kept (Present-blank c.cwd there)) rd refl)
      ])
      (elim (Bool-cases (n == 0)) [
        | inl e ↦ rw e (
            ran_with _ c'
              ((==_iff n 0).0 e, untouched-GoodOut to sound, λ _. Present-blank c.cwd there)
              (Ready-blank c r) refl)
        | inr e ↦ rw e (
            ran_with _ (record c' { err_no = _ }) (tt, untouched-GoodOut to sound, λ h. absurd (cc))
              (Ready-blank c r) refl)
      ])

-- Fetched, after the response has been saved and freed.
Fetched-saved :
    (to : Destination) (rp : Response) (a : ℤ × Bytes) (d : Conn)
    → Fetched to a d
    → Fetched to a (done_with_response (some rp) d)
Fetched-saved to rp (e, out) d (settled, good, there) =
    let (str, num, ll, eq) = done_with_response_lem rp d in (settled, good, λ h. rw eq (there h))

ask_pwd-Fetched :
    (to : Destination) (c : Conn) → Sound to → Ready c → SafeWith (Fetched to) (ask_pwd to c)
unfolding ask_pwd
ask_pwd-Fetched to c sound r =
    let c1 = record c { allocs = c.allocs + 1 } in
    rw (init_response-Runs c r)
      (elim (r_cmd-Asked empty_response (codes "PWD") c1 r.genuine r.memory r.stack) [
        | heard rp text i n of is_open small one less eq ↦
            let d = record (after_write c1 text) { allocs = n; input = i } in
            rw eq
              (elim (use_pwd-Fetched to (pos rp.code_type) rp.msg d sound r
                (λ _. (one, r.present is_open))) [
                  | ran_with a d' p rd e' ↦ rw e' (
                      ran_with a _ (Fetched-saved to rp a d' p) (done_with_response-Ready rp d' rd)
                        refl)
                ])
        | unheard er rp d negative kept eq ↦
            rw eq
              (elim (use_pwd-Fetched to er rp.msg d sound (Ready-Keeps c1 d r kept)
                (λ h. absurd (cc))) [
                  | ran_with a d' p rd e' ↦ rw e' (
                      ran_with a _ (Fetched-saved to rp a d' p) (done_with_response-Ready rp d' rd)
                        refl)
                ])
      ])

-- The last test needs a cache, and a destination, of two bytes.
-- What FTPGetCWD leaves.
abbrev pub GotCwd : Destination → ℤ × Bytes → Type 0
GotCwd to (e, out) = Settled e × GoodOut to out

Sized-Present :
    (b : Option Bytes) → Sized b → Present b → (x : Bytes) × (b ≡ some x) × (2 ≤ length x)
Sized-Present none h p = absurd p
Sized-Present (some x) h p = (x, refl, h)

truncated-Sized : (b : Bytes) → 2 ≤ length b → (long : Bool) × (truncated (some b) ≡ some long)
unfolding truncated
truncated-Sized b h =
    let wide : ltb (length b) 2 ≡ false = ground arith in
    (not (get_or b (length b - 2) 0 == 0), rw wide)

pointee-Sized :
    (to : Destination) (out b : Bytes)
    → Sound to
    → GoodOut to out
    → 2 ≤ length b
    → (x : Bytes) × (pointee to out (some b) ≡ some x) × (2 ≤ length x)
pointee-Sized nowhere out b sound good h = absurd sound
pointee-Sized cache out b sound good h = (b, refl, h)
pointee-Sized (array a) out b sound (wide, _) h = (out, refl, wide)

check_length-GotCwd :
    (to : Destination) (e : ℤ) (out : Bytes) (c : Conn)
    → Sound to
    → Ready c
    → Fetched to (e, out) c
    → Safe (GotCwd to) (check_length to e out c)
unfolding check_length
check_length-GotCwd to (negsuc n) out c sound r (settled, good, there) =
    ran (negsuc n, out) c (tt, good) r refl
check_length-GotCwd to (pos (suc n)) out c sound r (settled, good, there) = absurd (omega arith)
check_length-GotCwd to (pos zero) out c sound r (settled, good, there) =
    let (b, e, h) = Sized-Present c.cwd r.sized (there refl) in
    let (long, t) = truncated-Sized b h in go b long e h t
  where
    too_long : (long : Bool) → Settled (if long then k_err_path_too_long else k_no_err)
    too_long true = tt
    too_long false = refl

    go :
        (b : Bytes) (long : Bool)
        → c.cwd ≡ some b
        → 2 ≤ length b
        → truncated (some b) ≡ some long
        → Safe (GotCwd to) (check_length to k_no_err out c)
    go b true e h t =
        let h' : 2 ≤ length (set b 0 0) = omega (arith, length-set b 0 0) in
        let (x, px, hx) = pointee-Sized to out (set b 0 0) sound good h' in
        let (long', tx) = truncated-Sized x hx in
        let cut : truncated c.cwd ≡ some true = rw e t in
        let found : pointee to out (invalidate c.cwd) ≡ some x = rw e px in
        rw (cut, found, tx)
          (ran _ (record c { cwd = invalidate c.cwd }) (tt, good) (Ready-forget_cwd c r) refl)
    go b false e h t =
        let (x, px, hx) = pointee-Sized to out b sound good h in
        let (long', tx) = truncated-Sized x hx in
        let whole : truncated c.cwd ≡ some false = rw e t in
        let found : pointee to out c.cwd ≡ some x = rw e px in
        rw (whole, found, tx) (ran _ c (too_long long', good) r refl)

ask_and_check-GotCwd :
    (to : Destination) (c : Conn)
    → Sound to
    → Ready c
    → Safe (GotCwd to) ((ask_pwd to >>= λ pair. check_length to pair.0 pair.1) c)
ask_and_check-GotCwd to c sound r = elim (ask_pwd-Fetched to c sound r) [
  | ran_with (e, out) d p rd eq ↦ rw eq (check_length-GotCwd to e out d sound rd p)
]

get_cwd_with-GotCwd :
    (to : Destination) (cwd : Option Bytes) (c : Conn)
    → Sound to
    → Ready c
    → (Present cwd → Present c.cwd)
    → Safe (GotCwd to) (get_cwd_with to cwd c)
unfolding get_cwd_with
get_cwd_with-GotCwd to none c sound r there = ask_and_check-GotCwd to c sound r
get_cwd_with-GotCwd to (some b) c sound r there =
    let (out, good, e) = copy_out-GoodOut to (cstr b) c sound in
    Safe-choice (GotCwd to) (get_or b 0 0 == 0) _ _ c (ask_and_check-GotCwd to c sound r)
      (rw e (check_length-GotCwd to k_no_err out c sound r (refl, good, λ _. there tt)))

-- A destination as it may be given: NULL is answered by an error.
abbrev pub Given : Destination → Type 0
Given (array a) = Room a
Given _ = Unit

pub get_cwd-Runs : (to : Destination) → Given to → Runs (GotCwd to) (get_cwd to)
unfolding get_cwd get_cwd_to
get_cwd-Runs nowhere given c r = rw r.genuine (ran _ (record c { err_no = _ }) (tt, tt) r refl)
get_cwd-Runs (array []) (h, _) c r = absurd (omega arith)
get_cwd-Runs (array (x ∷ a)) given c r =
    rw r.genuine (get_cwd_with-GotCwd (array (x ∷ a)) c.cwd c given r (λ h. h))
get_cwd-Runs cache given c r = rw r.genuine (go c.cwd)
  where
    go : (cwd : Option Bytes) → Safe (GotCwd cache) (get_cwd_to cache cwd c)
    go none = ran _ (record c { err_no = _ }) (tt, tt) r refl
    go (some []) = ran _ (record c { err_no = _ }) (tt, tt) r refl
    go (some (x ∷ b)) = get_cwd_with-GotCwd cache c.cwd c tt r (λ h. h)
