-- ===== src/Login/Endless.antt =====
-- FTPLoginHost against a server that asks for a password again and again.
use libncftp.Base.{
  ℕ, zero, suc, ◌+◌, ◌-◌, true, false, [], ◌∷◌, ◌++◌, List, none, some, Bytes, codes, ℤ, pos,
  strcmp_eq, ◌≡◌, refl, arith,
}
use libncftp.Conn.{Account, Conn, whole, library_magic}
use libncftp.Conn.Errors.{k_err_login_failed}
use libncftp.Reply.{empty_response, re_init_response, save_last_response, init_response}
use libncftp.Reply.Frame.{Reply, IsReply, MemoryOk, wire_reply, number_of, read_as}
use libncftp.Command.Framing.{Sendable, crlf, after_write}
use libncftp.Command.Exchange.{Answers, after_exchange, r_cmd-Answers}
use libncftp.Login.{
  Progress, at_start, still, is_anonymous, exchange, own_pass, go_on, follow, next_step, on_welcome,
  login_loop, with_passphrase, login_end, login_host, login_steps, prepare_account, login_user,
}
use libncftp.Login.Accepted.{registered, re_init_reply, next_step_own_pass}

-- The server answers every line with the same reply.
pub record Insists (r : Reply) (c : Conn) : Type 0 where
  pub genuine : strcmp_eq c.magic library_magic ≡ true
  pub is_open : c.ctrl_open ≡ true
  pub memory : MemoryOk c
  pub timely : c.data_timed_out ≡ false
  pub drained : c.input ≡ []
  pub writes : (lines : List Bytes) → c.writes lines ≡ whole
  pub reply : (lines : List Bytes) → c.peer lines ≡ wire_reply r
  pub well : IsReply r
  pub asks : number_of r ≡ 331

module _ (passphrase : List Bytes → Bytes → Bytes) (u : ℕ) (user : Bytes) (b : ℕ) (pass cwd : Bytes)
    (a : Account) (r : Reply) where
  Insists-Answers :
      (c0 : Conn) (command : Bytes)
      → Insists r c0
      → Sendable command
      → Answers (registered u user b pass cwd a c0) command r
  Insists-Answers c0 command i s = record {
    genuine = i.genuine;
    is_open = i.is_open;
    memory = i.memory;
    timely = i.timely;
    drained = i.drained;
    sendable = s;
    writes = i.writes _;
    reply = i.reply _;
    well = i.well;
    stays = λ h. ground (arith, i.asks);
  }

  -- The connection before the next round, up to its account.
  abbrev asked_again : Conn → Bytes → ℕ → Conn
  asked_again c0 text k = after_exchange c0 text r k

  asked_again-Insists :
      (c0 : Conn) (text : Bytes) (k : ℕ) → Insists r c0 → Insists r (asked_again c0 text k)
  asked_again-Insists c0 text k i = record {
    genuine = i.genuine;
    is_open = i.is_open;
    memory = i.memory;
    timely = i.timely;
    drained = refl;
    writes = i.writes;
    reply = i.reply;
    well = i.well;
    asks = i.asks;
  }

  each_round :
      (n k : ℕ) (text : Bytes) (result : ℤ) (p : Progress) (c0 : Conn)
      → Insists r c0
      → Sendable (codes "PASS " ++ (b ∷ pass))
      → (d : Conn) × (login_loop passphrase n result
            (read_as r empty_response)
            p
            (record (after_write (registered u user b pass cwd a c0) (text ++ crlf)) {
              allocs = k;
              input = [];
            })
          ≡ some (still, d))
  unfolding login_loop follow own_pass exchange go_on with_passphrase strcmp_eq
  each_round zero k text result p c0 i s = (_, refl)
  each_round (suc n) k text result p c0 i s =
      let c1 = asked_again c0 text k in
      let i1 = asked_again-Insists c0 text k i in
      let (m, e) =
        r_cmd-Answers (registered u user b pass cwd a c1) (codes "PASS " ++ (b ∷ pass)) r
          (Insists-Answers c1 (codes "PASS " ++ (b ∷ pass)) i1 s) in
      let (d, e') =
        each_round n m (codes "PASS " ++ (b ∷ pass)) (pos (r.d1 - b'0'))
          (record p { sent_pass = true }) c1 i1 s in
      (
        d,
        rw
            (next_step_own_pass (registered u user b pass cwd a c0).account result (number_of r) p
              refl i.asks)
            (rw (re_init_reply r (registered u user b pass cwd a c0) text k, e) e'),
      )

  first_then_each :
      (n i : ℕ) (c0 : Conn)
      → Insists r c0
      → Sendable (codes "USER " ++ (u ∷ user))
      → Sendable (codes "PASS " ++ (b ∷ pass))
      → (d : Conn) × (login_loop passphrase n k_err_login_failed
            (record empty_response { code = 220 })
            at_start
            (record (registered u user b pass cwd a c0) { allocs = i })
          ≡ some (still, d))
  unfolding login_loop follow exchange go_on next_step on_welcome re_init_response
      save_last_response
  first_then_each zero i c0 h s1 s2 = (_, refl)
  first_then_each (suc n) i c0 h s1 s2 =
      let c1 = record c0 {
        last_result_str = [];
        last_result_num = pos 220;
        last_result_ll = [];
        allocs = i;
      } in
      let h1 : Insists r c1 = record {
        genuine = h.genuine;
        is_open = h.is_open;
        memory = h.memory;
        timely = h.timely;
        drained = h.drained;
        writes = h.writes;
        reply = h.reply;
        well = h.well;
        asks = h.asks;
      } in
      let (k, e) =
        r_cmd-Answers (registered u user b pass cwd a c1) (codes "USER " ++ (u ∷ user)) r
          (Insists-Answers c1 (codes "USER " ++ (u ∷ user)) h1 s1) in
      let (d, e') =
        each_round n k (codes "USER " ++ (u ∷ user)) (pos (r.d1 - b'0')) at_start c1 h1 s2 in
      (d, rw e e')

  -- Against a server that answers every line with the code 331, FTPLoginHost does not end: whatever
  -- the fuel, it is spent, and no result is given. No firewall is in use, the account has a name that is
  -- not anonymous's and a password, whose lines fit, there is a directory cache, memory is at hand, and
  -- every write succeeds.
  pub login_host_insisted :
      (anon_password unwritten : Bytes) (fuel : ℕ) (c : Conn)
      → is_anonymous (u ∷ user) ≡ false
      → Sendable (codes "USER " ++ (u ∷ user))
      → Sendable (codes "PASS " ++ (b ∷ pass))
      → Insists r c
      → (d : Conn) × (login_host passphrase anon_password unwritten fuel
            (registered u user b pass cwd a c)
          ≡ some (none, d))
  unfolding login_host login_steps prepare_account login_user init_response login_end
  login_host_insisted anon_password unwritten fuel c named s1 s2 i =
      let (d, e) = first_then_each fuel (c.allocs + 1) c i s1 s2 in
      (d, rw (i.genuine, named, i.memory c.allocs, e) refl)
