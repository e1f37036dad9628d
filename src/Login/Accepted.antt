-- ===== src/Login/Accepted.antt =====
-- FTPLoginHost against a server that asks for a name and a password, and accepts them.
use libncftp.Base.{
  ℕ, suc, ◌+◌, ◌-◌, true, false, [], ◌∷◌, ◌++◌, List, none, some, Bytes, codes, ℤ, pos, strcmp_eq,
  ◌==◌, ◌||◌, ◌≡◌, refl, arith,
}
use libncftp.Conn.{Account, Conn}
use libncftp.Conn.Errors.{k_no_err, k_err_login_failed}
use libncftp.Reply.{Response, empty_response, re_init_response, save_last_response, init_response}
use libncftp.Reply.Frame.{Reply, number_of, read_as}
use libncftp.Command.Framing.{crlf, after_write}
use libncftp.Command.Exchange.{Answers, after_exchange, r_cmd-Answers, done_with_reply}
use libncftp.Login.{
  Progress, at_start, accepted, is_anonymous, scrubbed, exchange, own_pass, go_on, follow,
  next_step, on_welcome, on_password, okay, send_own_pass, login_loop, with_passphrase, login_okay,
  login_end, login_host, login_steps, prepare_account, login_user, make_cache, scrub,
}

-- A connection without a firewall whose account has a name and a password, which are not to be left,
-- with a directory cache and no wish for the starting directory.
abbrev pub registered : ℕ → Bytes → ℕ → Bytes → Bytes → Account → Conn → Conn
registered u user p pass cwd a c = record c {
  account = record a {
    firewall_type = 0;
    user = u ∷ user;
    pass = p ∷ pass;
    leave_pass = false;
    do_not_get_starting_cwd = true;
  };
  cwd = some cwd;
}

pub re_init_reply :
    (r : Reply) (c : Conn) (text : Bytes) (n : ℕ)
    → (re_init_response
        (some (read_as r empty_response))
        (record (after_write c (text ++ crlf)) { allocs = n; input = [] })).1
      ≡ after_exchange c text r n
unfolding re_init_response save_last_response
re_init_reply r c text n = ground arith

-- What FTPLoginHost makes of the connection once the server has accepted it.
abbrev pub session_of : Conn → Conn
session_of c = record c {
  account = record c.account { pass = scrubbed };
  logged_in = true;
  starting_cwd = none;
  cur_transfer_type = b'A';
}

next_step_okay :
    (a : Account) (result : ℤ) (code : ℕ) (p : Progress)
    → a.firewall_type ≡ 0
    → (code == 230 || code == 231 || code == 202) ≡ true
    → next_step a result code p ≡ okay
unfolding next_step
next_step_okay a result code p plain accepts = ground arith

pub next_step_own_pass :
    (a : Account) (result : ℤ) (code : ℕ) (p : Progress)
    → a.firewall_type ≡ 0
    → code ≡ 331
    → next_step a result code p ≡ send_own_pass (record p { sent_pass = true })
unfolding next_step on_password
next_step_own_pass a result code p plain asks = ground arith

-- The third round.
last_round :
    (passphrase : List Bytes → Bytes → Bytes) (n : ℕ) (result : ℤ) (rp : Response) (p : Progress)
    (c : Conn)
    → c.account.firewall_type ≡ 0
    → (rp.code == 230 || rp.code == 231 || rp.code == 202) ≡ true
    → login_loop passphrase (suc n) result rp p c ≡ some (accepted rp, c)
unfolding login_loop follow
last_round passphrase n result rp p c plain accepts =
    rw (next_step_okay c.account result rp.code p plain accepts) refl

module _ (passphrase : List Bytes → Bytes → Bytes) (u : ℕ) (user : Bytes) (b : ℕ) (pass cwd : Bytes)
    (a : Account) where
  -- The second round.
  second_round :
      (n k : ℕ) (text : Bytes) (result : ℤ) (r1 r2 : Reply) (c0 : Conn)
      → number_of r1 ≡ 331
      → (number_of r2 == 230 || number_of r2 == 231 || number_of r2 == 202) ≡ true
      → (let c = registered u user b pass cwd a c0 in
          Answers (after_exchange c text r1 k) (codes "PASS " ++ (b ∷ pass)) r2
          → (m : ℕ) × (login_loop passphrase
                (suc (suc n))
                result
                (read_as r1 empty_response)
                at_start
                (record (after_write c (text ++ crlf)) { allocs = k; input = [] })
              ≡ some (
                accepted (read_as r2 empty_response),
                record (after_write
                    (after_exchange c text r1 k)
                    (codes "PASS " ++ (b ∷ pass) ++ crlf)) { allocs = m; input = [] },
              )))
  unfolding login_loop follow own_pass exchange go_on with_passphrase strcmp_eq
  second_round n k text result r1 r2 c0 asks accepts answers =
      let c = registered u user b pass cwd a c0 in
      let (m, e) =
        r_cmd-Answers (after_exchange c text r1 k) (codes "PASS " ++ (b ∷ pass)) r2 answers in
      (
        m,
        rw (next_step_own_pass c.account result (number_of r1) at_start refl asks) (
            rw (re_init_reply r1 c text k, e)
              (last_round passphrase n _ (read_as r2 empty_response) _ _ refl accepts)),
      )

  -- The first round, which begins with the code 220.
  first_round :
      (n i : ℕ) (r1 r2 : Reply) (c0 : Conn)
      → number_of r1 ≡ 331
      → (number_of r2 == 230 || number_of r2 == 231 || number_of r2 == 202) ≡ true
      → Answers (registered u user b pass cwd a c0) (codes "USER " ++ (u ∷ user)) r1
      → ((k : ℕ)
          → Answers
              (after_exchange
                (registered u user b pass cwd a c0)
                (codes "USER " ++ (u ∷ user))
                r1
                k)
              (codes "PASS " ++ (b ∷ pass))
              r2)
      → (k : ℕ) × (m : ℕ) × (login_loop passphrase
            (suc (suc (suc n)))
            k_err_login_failed
            (record empty_response { code = 220 })
            at_start
            (record (registered u user b pass cwd a c0) { allocs = i })
          ≡ some (
            accepted (read_as r2 empty_response),
            record (after_write
                (after_exchange
                  (registered u user b pass cwd a c0)
                  (codes "USER " ++ (u ∷ user))
                  r1
                  k)
                (codes "PASS " ++ (b ∷ pass) ++ crlf)) { allocs = m; input = [] },
          ))
  unfolding login_loop follow exchange go_on next_step on_welcome re_init_response
      save_last_response
  first_round n i r1 r2 c0 asks accepts a1 a2 =
      let c1 = record c0 {
        last_result_str = [];
        last_result_num = pos 220;
        last_result_ll = [];
        allocs = i;
      } in
      let a1' : Answers (registered u user b pass cwd a c1) (codes "USER " ++ (u ∷ user)) r1 =
        record {
          genuine = a1.genuine;
          is_open = a1.is_open;
          memory = a1.memory;
          timely = a1.timely;
          drained = a1.drained;
          sendable = a1.sendable;
          writes = a1.writes;
          reply = a1.reply;
          well = a1.well;
          stays = a1.stays;
        } in
      let (k, e) =
        r_cmd-Answers (registered u user b pass cwd a c1) (codes "USER " ++ (u ∷ user)) r1 a1' in
      let (m, e') =
        second_round n k (codes "USER " ++ (u ∷ user)) (pos (r1.d1 - b'0')) r1 r2 c1 asks accepts
          (a2 k) in
      (k, m, rw e e')

  -- Where the server answers USER with the code 331 and PASS with 230, 231 or 202, and no firewall is
  -- in use, FTPLoginHost logs in with three rounds of fuel: it sends the name and then the password,
  -- in two lines and no other; it returns kNoErr; the reply to PASS is the last result, the transfer
  -- type is ASCII, the former starting directory is forgotten, and the password is overwritten. The
  -- account has a name that is not anonymous's and a password; the starting directory is not asked
  -- for, and there is a directory cache. What it takes of the connection is in `Answers`.
  pub login_host_accepts :
      (anon_password unwritten : Bytes) (n : ℕ) (r1 r2 : Reply) (c : Conn)
      → is_anonymous (u ∷ user) ≡ false
      → number_of r1 ≡ 331
      → (number_of r2 == 230 || number_of r2 == 231 || number_of r2 == 202) ≡ true
      → Answers (registered u user b pass cwd a c) (codes "USER " ++ (u ∷ user)) r1
      → ((k : ℕ)
          → Answers
              (after_exchange (registered u user b pass cwd a c) (codes "USER " ++ (u ∷ user)) r1 k)
              (codes "PASS " ++ (b ∷ pass))
              r2)
      → (k : ℕ) × (m : ℕ) × (login_host passphrase anon_password unwritten
            (suc (suc (suc n)))
            (registered u user b pass cwd a c)
          ≡ some (
            some k_no_err,
            session_of (
                after_exchange
                  (after_exchange
                    (registered u user b pass cwd a c)
                    (codes "USER " ++ (u ∷ user))
                    r1
                    k)
                  (codes "PASS " ++ (b ∷ pass))
                  r2
                  m),
          ))
  unfolding login_host login_steps prepare_account login_user init_response login_end login_okay
      make_cache scrub
  login_host_accepts anon_password unwritten n r1 r2 c named asks accepts a1 a2 =
      let (k, m, e) = first_round n (c.allocs + 1) r1 r2 c asks accepts a1 a2 in
      (k, m, rw (a1.genuine, named, a1.memory c.allocs) (rw (e, done_with_reply r2, named) refl))
