-- ===== src/Login/Laws.antt =====
-- How FTPLoginHost ends: it hands over a ready connection block, or it erases the password.
use libncftp.Base.{
  ℕ, ◌+◌, ◌≤◌, ◌<◌, true, false, List, Option, none, some, Bytes, ℤ, pos, negsuc, length,
  length-replicate, replicate, ◌==◌, ==_iff, ltb, ◌≡◌, refl, ◌⊎◌, inl, inr, arith, Bool-cases,
}
use libncftp.Conn.{Account, Conn, M, ◌>>=◌, ◌>>◌, return, modify}
use libncftp.Conn.Errors.{k_no_err, k_err_login_failed, k_err_login_host_misc_err}
use libncftp.Reply.{Response, init_response}
use libncftp.Command.Exchange.{done_with_response_lem}
use libncftp.Login.{
  is_anonymous, login_user, prepare_account, scrub, scrubbed, redials, login_failed, make_cache,
  login_okay, login_end, login_steps, login_host, LoginEnd, at_start,
}
use libncftp.Login.Loop.{Almost, Stock, Budget, Kept, LoopEnds, logs_in, stops, login_loop-LoopEnds}
use libncftp.Session.Ready.{Ready, Sized, Present, Settled}

-- How FTPLoginHost ends: it is logged in, the connection block is ready, and the password is erased; or
-- it is turned away with a negative error or 0, and the password is erased unless it is to be dialed again.
pub data Outcome (out : Option (Option ℤ × Conn)) : Type 0 where
  in_session :
      (d : Conn)
      → Ready d
      → d.logged_in ≡ true
      → d.account.pass ≡ scrubbed
      → out ≡ some (some k_no_err, d)
      → Outcome out
  turned_away :
      (e : ℤ) (d : Conn)
      → Settled e
      → ((d.account.pass ≡ scrubbed) ⊎ (redials e ≡ true))
      → out ≡ some (some e, d)
      → Outcome out

scrub-pass :
    (a : Account) → is_anonymous a.user ≡ false → a.leave_pass ≡ false → (scrub a).pass ≡ scrubbed
unfolding scrub
scrub-pass a named erased = rw (named, erased)

refused :
    (e : ℤ) (c : Conn)
    → is_anonymous c.account.user ≡ false
    → c.account.leave_pass ≡ false
    → Outcome ((login_failed e >>= λ result. return (some result)) c)
unfolding login_failed redials
refused (pos n) c named erased =
    let d = record c { account = scrub c.account } in
    elim (Bool-cases (n == 0)) [
      | inl z ↦
          rw z (
            turned_away (pos n) d ((==_iff n 0).0 z) (inl (scrub-pass c.account named erased)) refl)
      | inr z ↦ rw z (
          turned_away k_err_login_host_misc_err (record d { err_no = k_err_login_host_misc_err }) tt
            (inl (scrub-pass c.account named erased)) refl)
    ]
refused (negsuc n) c named erased = elim (Bool-cases (redials (negsuc n))) [
  | inl again ↦ turned_away (negsuc n) _ tt (inr again) refl
  | inr over ↦ turned_away (negsuc n) _ tt (inl (rw over (scrub-pass c.account named erased))) refl
]

zeros-Sized : (n : ℕ) → 2 ≤ n → Sized (some (replicate n 0))
zeros-Sized n h = omega (arith, length-replicate {A = ℕ} n 0)

-- The cache is there, and nothing else that matters has changed.
make_cache-Ready :
    (cwd : Option Bytes) (c : Conn)
    → Almost c
    → Stock cwd c.cwd_size
    → (Present cwd → Present c.cwd)
    → (d : Conn) × (make_cache cwd c ≡ some (tt, d))
      × Ready d
      × (d.account ≡ c.account)
      × (d.logged_in ≡ c.logged_in)
unfolding make_cache
make_cache-Ready (some b) c almost stock there = (
  c,
  refl,
  record {
    genuine = almost.genuine;
    memory = almost.memory;
    stack = almost.stack;
    present = λ _. there tt;
    sized = almost.sized;
    roomy = almost.roomy;
  },
  refl,
  refl,
)
make_cache-Ready none c almost stock there =
    let some_size : (c.cwd_size == 0) ≡ false = ground arith in
    (
      record c { allocs = c.allocs + 1; cwd = some (replicate c.cwd_size 0) },
      rw (some_size, almost.memory c.allocs),
      record {
        genuine = almost.genuine;
        memory = almost.memory;
        stack = almost.stack;
        present = λ _. tt;
        sized = zeros-Sized c.cwd_size stock;
        roomy = almost.roomy;
      },
      refl,
      refl,
    )

-- A user who is not anonymous, whose password is not to be left, and whose application does not want
-- the starting directory.
pub record Guarded (a : Account) : Type 0 where
  pub named : is_anonymous a.user ≡ false
  pub erased : a.leave_pass ≡ false
  pub no_start : a.do_not_get_starting_cwd ≡ true

welcomed :
    (unwritten : Bytes) (rp : Response) (c : Conn)
    → Almost c
    → Stock c.cwd c.cwd_size
    → Guarded c.account
    → Outcome ((login_okay unwritten rp >>= λ result. return (some result)) c)
unfolding login_okay
welcomed unwritten rp c almost stock g =
    let (str, num, ll, e) = done_with_response_lem rp c in
    let c1 = record c {
      last_result_str = str;
      last_result_num = num;
      last_result_ll = ll;
      logged_in = true;
      starting_cwd = none;
    } in
    let (d, made, ready, same, logged) = make_cache-Ready c.cwd c1 almost stock (λ h. h) in
    let no_start : d.account.do_not_get_starting_cwd ≡ true = rw same g.no_start in
    rw (e, made, no_start)
      (in_session (record d { cur_transfer_type = b'A'; account = scrub d.account }) ready logged
        (scrub-pass d.account (rw same g.named) (rw same g.erased)) refl)

Guarded-Kept : (c d : Conn) → Kept c d → Guarded c.account → Guarded d.account
Guarded-Kept c d k g = record {
  named = rw k.user g.named;
  erased = rw k.leave_pass g.erased;
  no_start = rw k.no_start g.no_start;
}

finished :
    (unwritten : Bytes) (c : Conn) (out : Option (LoginEnd × Conn))
    → Guarded c.account
    → LoopEnds c out
    → Outcome (libncftp.Conn.then_do (login_end unwritten) out)
unfolding login_end
finished unwritten c out g (logs_in rp d k stock eq) =
    rw eq (welcomed unwritten rp d k.almost stock (Guarded-Kept c d k g))
finished unwritten c out g (stops e rp d k eq) =
    let (str, num, ll, saved) = done_with_response_lem rp d in
    let d1 = record d { last_result_str = str; last_result_num = num; last_result_ll = ll } in
    let g1 = Guarded-Kept c d k g in rw (eq, saved) (refused e d1 g1.named g1.erased)

-- The account before the first command.
prepare_account-Guarded :
    (anon_password : Bytes) (a : Account)
    → is_anonymous (login_user a.user) ≡ false
    → a.leave_pass ≡ false
    → a.do_not_get_starting_cwd ≡ true
    → Guarded (prepare_account anon_password a)
unfolding prepare_account
prepare_account-Guarded anon_password a named erased no_start =
    rw named (record { named = named; erased = erased; no_start = no_start })

-- If the server sends no more than a bounded number of lines, which `left` counts, FTPLoginHost ends,
-- with that many rounds of fuel and one more, and without a fault, whatever the lines are: either
-- with kNoErr, logged in, with the password erased and the connection block ready for any sequence of
-- calls; or turned away with a negative error or 0, with the password erased unless the result is one of those
-- behind which it is kept to dial again. The user is not anonymous, the password is not to be left, and
-- the starting directory is not asked for; memory is at hand, the stack has a NUL behind the fourth byte
-- of GetResponse's line buffer, and there is a directory cache or the size of one.
pub login_host-Outcome :
    (passphrase : List Bytes → Bytes → Bytes) (anon_password unwritten : Bytes)
    (left : List Bytes → ℕ) (fuel : ℕ) (c : Conn)
    → c.account.firewall_type ≤ 9
    → is_anonymous (login_user c.account.user) ≡ false
    → c.account.leave_pass ≡ false
    → c.account.do_not_get_starting_cwd ≡ true
    → Almost c
    → Stock c.cwd c.cwd_size
    → Budget c.peer left
    → length c.input + left c.sent < fuel
    → Outcome (login_host passphrase anon_password unwritten fuel c)
unfolding login_host login_steps init_response
login_host-Outcome passphrase anon_password unwritten left fuel c known named erased no_start almost
      stock budget less =
    let valid : ltb 9 c.account.firewall_type ≡ false = ground arith in
    let c1 = record c {
      account = prepare_account anon_password c.account;
      allocs = c.allocs + 1;
    } in
    rw (valid, almost.genuine, almost.memory c.allocs)
      (finished unwritten c1 _
        (prepare_account-Guarded anon_password c.account named erased no_start)
        (login_loop-LoopEnds left passphrase fuel k_err_login_failed _ at_start c1 almost stock
          budget less))
