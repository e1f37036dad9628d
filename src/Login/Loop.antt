-- ===== src/Login/Loop.antt =====
-- The automaton of FTPLoginHost ends if the server sends no more than so many lines.
use libncftp.Base.{
  ℕ, zero, suc, ◌+◌, ◌≤◌, ◌<◌, Bool, true, false, not, ◌&&◌, [], ◌∷◌, ◌++◌, List, Option, none,
  some, Bytes, codes, if◌then◌else◌, ℤ, pos, length, length-append, ◌≡◌, refl, ◌∙◌, arith,
  strcmp_eq,
}
use libncftp.Conn.{Account, Conn, M, Readline, ◌>>=◌, return}
use libncftp.Reply.{Response, empty_response, re_init_response, done_with_response}
use libncftp.Command.{r_cmd}
use libncftp.Command.Framing.{after_write}
use libncftp.Command.Exchange.{Keeps, done_with_response_lem}
use libncftp.Command.Asking.{Asked, heard, unheard, r_cmd-Asked}
use libncftp.Login.{
  Progress, Next, send, send_own_pass, okay, stop, next_step, exchange, with_passphrase, own_pass,
  LoginEnd, accepted, stopped, go_on, follow, login_loop,
}
use libncftp.Session.Ready.{IsReady, Roomy-kept, Sized-kept}

-- A ready block, but for the directory cache that an open connection has.
abbrev pub Almost : Conn → Type 0
Almost c = IsReady c.magic c.malloc false c.cwd c.buf c.junk

-- There is a directory cache, or the size to make one.
abbrev pub Stock : Option Bytes → ℕ → Type 0
Stock none size = 2 ≤ size
Stock (some b) size = Unit

-- `left` bounds the lines that the server still sends, once it has seen the lines it is given.
abbrev pub Budget : (List Bytes → List Readline) → (List Bytes → ℕ) → Type 0
Budget peer left =
    (sent : List Bytes) (text : Bytes)
    → length (peer (sent ++ (text ∷ []))) + left (sent ++ (text ∷ [])) ≤ left sent

-- What the loop keeps.
pub record Kept (c d : Conn) : Type 0 where
  pub almost : Almost d
  pub user : d.account.user ≡ c.account.user
  pub leave_pass : d.account.leave_pass ≡ c.account.leave_pass
  pub no_start : d.account.do_not_get_starting_cwd ≡ c.account.do_not_get_starting_cwd

pub data LoopEnds (c : Conn) (out : Option (LoginEnd × Conn)) : Type 0 where
  logs_in :
      (rp : Response) (d : Conn)
      → Kept c d
      → Stock d.cwd d.cwd_size
      → out ≡ some (accepted rp, d)
      → LoopEnds c out
  stops :
      (e : ℤ) (rp : Response) (d : Conn) → Kept c d → out ≡ some (stopped e rp, d) → LoopEnds c out

Kept-trans : (c d e : Conn) → Kept c d → Kept d e → Kept c e
Kept-trans c d e h k = record {
  almost = k.almost;
  user = k.user ∙ h.user;
  leave_pass = k.leave_pass ∙ h.leave_pass;
  no_start = k.no_start ∙ h.no_start;
}

LoopEnds-trans :
    (c d : Conn) (out : Option (LoginEnd × Conn)) → Kept c d → LoopEnds d out → LoopEnds c out
LoopEnds-trans c d out k (logs_in rp e h s eq) = logs_in rp e (Kept-trans c d e k h) s eq
LoopEnds-trans c d out k (stops er rp e h eq) = stops er rp e (Kept-trans c d e k h) eq

Almost-Keeps : (c d : Conn) → Almost c → Keeps c d → Almost d
Almost-Keeps c d r k = record {
  genuine = rw k.magic_kept r.genuine;
  memory = rw k.memory_kept r.memory;
  stack = rw k.stack_kept r.stack;
  present = λ h. absurd (cc);
  sized = Sized-kept c.cwd d.cwd k.cwd_kept r.sized;
  roomy = Roomy-kept c.do_alloc_buf c.buf d.buf k.buf_kept r.roomy;
}

module _ (left : List Bytes → ℕ) where
  -- The next round, on a connection where fewer lines are to come.
  abbrev Rounds : ℕ → (ℤ → Response → Progress → M LoginEnd) → Type 0
  Rounds n next_round =
      (result : ℤ) (rp : Response) (p : Progress) (d : Conn)
      → Almost d
      → Stock d.cwd d.cwd_size
      → Budget d.peer left
      → length d.input + left d.sent < n
      → LoopEnds d (next_round result rp p d)

  after_asked :
      (n : ℕ) (next_round : ℤ → Response → Progress → M LoginEnd) (p : Progress) (command : Bytes)
      (c : Conn) (out : Option ((ℤ × Response) × Conn))
      → Rounds n next_round
      → Almost c
      → Stock c.cwd c.cwd_size
      → Budget c.peer left
      → length c.input + left c.sent < suc n
      → Asked command c out
      → LoopEnds c (libncftp.Conn.then_do (go_on next_round p) out)
  unfolding go_on
  after_asked n next_round p command c out rounds almost stock budget less
        (heard rp text i k of is_open small one fewer eq) =
      let d = record (after_write c text) { allocs = k; input = i } in
      let shorter : length i + left (c.sent ++ (text ∷ [])) < n =
        omega (arith, budget c.sent text, length-append c.input (c.peer (c.sent ++ (text ∷ [])))) in
      rw eq (
        LoopEnds-trans c d _
          (record { almost = almost; user = refl; leave_pass = refl; no_start = refl })
          (rounds (pos rp.code_type) rp p d almost stock budget shorter))
  after_asked n next_round p command c out rounds almost stock budget less
        (unheard e rp d negative kept eq) =
      rw (eq, negative)
        (stops e rp d
          (record {
            almost = Almost-Keeps c d almost kept;
            user = rw kept.account_kept refl;
            leave_pass = rw kept.account_kept refl;
            no_start = rw kept.account_kept refl;
          })
          refl)

  after_exchange :
      (n : ℕ) (next_round : ℤ → Response → Progress → M LoginEnd) (p : Progress) (rp : Response)
      (command : Bytes) (c : Conn)
      → Rounds n next_round
      → Almost c
      → Stock c.cwd c.cwd_size
      → Budget c.peer left
      → length c.input + left c.sent < suc n
      → LoopEnds c ((exchange rp command >>= go_on next_round p) c)
  unfolding exchange re_init_response done_with_response
  after_exchange n next_round p rp command c rounds almost stock budget less =
      let (str, num, ll, e) = done_with_response_lem rp c in
      let d = record c { last_result_str = str; last_result_num = num; last_result_ll = ll } in
      let saved : (re_init_response (some rp) c).1 ≡ d = e in
      rw saved (
        LoopEnds-trans c d _
          (record { almost = almost; user = refl; leave_pass = refl; no_start = refl })
          (after_asked n next_round p command d (r_cmd empty_response command d) rounds almost stock
            budget less
            (r_cmd-Asked empty_response command d almost.genuine almost.memory almost.stack)))

  with_passphrase-kept :
      (passphrase : List Bytes → Bytes → Bytes) (msg : List Bytes) (a : Account)
      → ((with_passphrase passphrase msg a).user ≡ a.user)
        × ((with_passphrase passphrase msg a).leave_pass ≡ a.leave_pass)
        × ((with_passphrase passphrase msg a).do_not_get_starting_cwd ≡ a.do_not_get_starting_cwd)
  unfolding with_passphrase
  with_passphrase-kept passphrase msg a = go (strcmp_eq a.pass [] && not a.pass_is_empty)
    where
      go :
          (b : Bool)
          → ((if b then record a { pass = passphrase msg a.pass } else a).user ≡ a.user)
            × ((if b then record a { pass = passphrase msg a.pass } else a).leave_pass
                ≡ a.leave_pass)
            × ((if b then record a { pass = passphrase msg a.pass } else a).do_not_get_starting_cwd
                ≡ a.do_not_get_starting_cwd)
      go true = (refl, refl, refl)
      go false = (refl, refl, refl)

  -- The loop ends within one round more than there are lines to come.
  pub login_loop-LoopEnds :
      (passphrase : List Bytes → Bytes → Bytes) (n : ℕ) → Rounds n (login_loop passphrase n)
  unfolding login_loop follow own_pass
  login_loop-LoopEnds passphrase zero result rp p c almost stock budget less = absurd (omega arith)
  login_loop-LoopEnds passphrase (suc n) result rp p c almost stock budget less =
      go (next_step c.account result rp.code p) (login_loop-LoopEnds passphrase n)
    where
      kept : Kept c c
      kept = record { almost = almost; user = refl; leave_pass = refl; no_start = refl }

      go :
          (x : Next)
          → Rounds n (login_loop passphrase n)
          → LoopEnds c (follow passphrase (login_loop passphrase n) rp x c)
      go okay rounds = logs_in rp c kept stock refl
      go (stop e) rounds = stops e rp c kept refl
      go (send command p') rounds =
          after_exchange n (login_loop passphrase n) p' rp command c rounds almost stock budget less
      go (send_own_pass p') rounds =
          let a = with_passphrase passphrase rp.msg c.account in
          let (same, left_there, start_there) = with_passphrase-kept passphrase rp.msg c.account in
          let d = record c { account = a } in
          LoopEnds-trans c d _
            (record {
              almost = almost;
              user = same;
              leave_pass = left_there;
              no_start = start_there;
            })
            (after_exchange n (login_loop passphrase n) p' rp (codes "PASS " ++ a.pass) d rounds
              almost stock budget less)
