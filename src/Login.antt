-- ===== src/Login.antt =====
-- libncftp/open.c, FTPLoginHost and FTPCloseHost.
--
-- FTPLoginHost runs an automaton on the codes of the replies, which a server can keep busy without
-- end: the loop is on fuel, and the outcome `still` says that the fuel was spent. `sentpass`,
-- `fwsentpass` and `fwloggedin` are counts that are only compared with 0. The application's
-- passphrase callback is an argument, from the lines of the reply and the password it finds to the
-- password it leaves; so are the anonymous password that FTPInitializeAnonPassword finds, and the
-- bytes of the local array `cwd`. The second copy of the magic and the times are not in the state.
pub mod Loop
pub mod Laws
pub mod Accepted
pub mod Endless
use libncftp.Base.{
  ℕ, zero, suc, ◌+◌, Bool, true, false, not, ◌&&◌, ◌||◌, [], ◌∷◌, ◌++◌, List, Option, none, some,
  Bytes, codes, if◌then◌else◌, ◌==◌, ltb, ℤ, pos, neg, is_neg, int_eq, strcmp_eq, take, replicate,
  c_string,
}
use libncftp.Conn.{
  Account, Conn, M, ◌>>=◌, ◌>>◌, return, modify, fault, allocate, check_magic,
  close_control_connection, deallocate_host,
}
use libncftp.Conn.Errors.{
  k_no_err, k_err_bad_parameter, k_err_malloc_failed, k_err_connect_retryable_err,
  k_err_connect_refused, k_err_remote_host_closed_connection, k_err_host_disconnected_during_login,
  k_err_bad_remote_user, k_err_bad_remote_user_or_password, k_err_login_failed,
  k_err_login_host_misc_err,
}
use libncftp.Reply.{Response, empty_response, init_response, done_with_response, re_init_response}
use libncftp.Command.{r_cmd}
use libncftp.Commands.Directory.{cache, array, get_cwd}

-- kFirewallNotInUse and the types of firewall
abbrev pub firewall_not_in_use : ℕ
firewall_not_in_use = 0

abbrev pub firewall_user_at_site : ℕ
firewall_user_at_site = 1

abbrev pub firewall_login_then_user_at_site : ℕ
firewall_login_then_user_at_site = 2

abbrev pub firewall_site_site : ℕ
firewall_site_site = 3

abbrev pub firewall_open_site : ℕ
firewall_open_site = 4

abbrev pub firewall_user_at_user_pass_at_pass : ℕ
firewall_user_at_user_pass_at_pass = 5

abbrev pub firewall_fwu_at_site_fwp_user_pass : ℕ
firewall_fwu_at_site_fwp_user_pass = 6

abbrev pub firewall_user_at_site_fwu_pass_fwp : ℕ
firewall_user_at_site_fwu_pass_fwp = 7

abbrev pub firewall_user_at_site_port : ℕ
firewall_user_at_site_port = 8

abbrev pub firewall_user_at_site_port2 : ℕ
firewall_user_at_site_port2 = 9

-- The counts of the loop.
pub record Progress : Type 0 where
  pub sent_pass : Bool
  pub fw_sent_pass : Bool
  pub fw_logged_in : Bool

abbrev pub at_start : Progress
at_start = record { sent_pass = false; fw_sent_pass = false; fw_logged_in = false }

-- What the `switch` on a reply's code leads to: a command, PASS behind the passphrase callback, the
-- label `okay`, or the label `done` with a result.
pub data Next : Type 0 where
  send : Bytes → Progress → Next
  send_own_pass : Progress → Next
  okay : Next
  stop : ℤ → Next

-- The user name that is sent to a firewall before its login.
pub firewall_user_name : Account → Bytes
firewall_user_name a =
    let at_host = a.user ++ (b'@' ∷ a.host) in
    if a.firewall_type == firewall_user_at_site
    then at_host
    else if a.firewall_type == firewall_user_at_site_port
    then at_host ++ (b':' ∷ a.port)
    else if a.firewall_type == firewall_user_at_site_port2
    then at_host ++ (b' ' ∷ a.port)
    else if a.firewall_type == firewall_user_at_user_pass_at_pass
    then a.user ++ (b'@' ∷ a.firewall_user) ++ (b'@' ∷ a.host)
    else if a.firewall_type == firewall_user_at_site_fwu_pass_fwp
    then at_host ++ (b' ' ∷ a.firewall_user)
    else if a.firewall_type == firewall_fwu_at_site_fwp_user_pass
    then a.firewall_user ++ (b'@' ∷ a.host)
    else a.firewall_user

-- Whether the next name or password is for the host itself.
abbrev pub past_firewall : Account → Progress → Bool
past_firewall a p = a.firewall_type == firewall_not_in_use || p.fw_logged_in || p.fw_sent_pass

-- case 220
pub on_welcome : Account → Progress → Next
unfolding firewall_user_name
on_welcome a p =
    send (codes "USER " ++ (if past_firewall a p then a.user else firewall_user_name a)) p

-- case 230, 231 and 202
pub on_logged_in : Account → Progress → Next
on_logged_in a p =
    let p' = record p { fw_logged_in = true } in
    if a.firewall_type == firewall_not_in_use || p.fw_logged_in
    then okay
    else if a.firewall_type == firewall_login_then_user_at_site
    then send (codes "USER " ++ a.user ++ (b'@' ∷ a.host)) p'
    else if a.firewall_type == firewall_user_at_user_pass_at_pass
    then okay
    else if a.firewall_type == firewall_open_site
    then send (codes "OPEN " ++ a.host) p'
    else if a.firewall_type == firewall_site_site
    then send (codes "SITE " ++ a.host) p'
    else if a.firewall_type == firewall_fwu_at_site_fwp_user_pass
    then send (codes "USER " ++ a.user) p'
    else okay

-- case 331
pub on_password : Account → Progress → Next
on_password a p =
    let own = record p { sent_pass = true } in
    let fw = record p { fw_sent_pass = true } in
    if past_firewall a p
    then send_own_pass own
    else if a.firewall_type == firewall_user_at_site
        || a.firewall_type == firewall_user_at_site_port
        || a.firewall_type == firewall_user_at_site_port2
    then send (codes "PASS " ++ a.pass) own
    else if a.firewall_type == firewall_user_at_user_pass_at_pass
    then send (codes "PASS " ++ a.pass ++ (b'@' ∷ a.firewall_pass)) fw
    else if a.firewall_type == firewall_user_at_site_fwu_pass_fwp
    then send (codes "PASS " ++ a.pass) own
    else send (codes "PASS " ++ a.firewall_pass) fw

-- case 332 and 532
pub on_account : Account → Progress → Next
on_account a p = send (codes "ACCT " ++ (elim a.acct [ [] ↦ a.firewall_pass | _ ∷ _ ↦ a.acct ])) p

-- The `switch` on the code of the reply, with the result of the last RCmd.
unfoldable pub next_step : Account → ℤ → ℕ → Progress → Next
unfolding on_welcome on_logged_in on_password on_account
next_step a result code p =
    if code == 220
    then on_welcome a p
    else if code == 230 || code == 231 || code == 202
    then on_logged_in a p
    else if code == 421
    then stop k_err_host_disconnected_during_login
    else if code == 331
    then on_password a p
    else if code == 332 || code == 532
    then on_account a p
    else if code == 530
    then stop (if p.sent_pass then k_err_bad_remote_user_or_password else k_err_bad_remote_user)
    else stop result

-- ReInitResponse, then RCmd.
unfoldable pub exchange : Response → Bytes → M (ℤ × Response)
unfolding re_init_response
exchange rp command c = r_cmd empty_response command (re_init_response (some rp) c).1

-- The passphrase callback is called for an empty password that is not meant.
unfoldable pub with_passphrase : (List Bytes → Bytes → Bytes) → List Bytes → Account → Account
with_passphrase passphrase msg a =
    if strcmp_eq a.pass [] && not a.pass_is_empty
    then record a { pass = passphrase msg a.pass }
    else a

abbrev pub set_account : Account → M (Unit {0})
set_account a = modify (λ c. record c { account = a })

unfoldable pub own_pass : (List Bytes → Bytes → Bytes) → Response → M (ℤ × Response)
unfolding with_passphrase exchange
own_pass passphrase rp = λ c.
    let a = with_passphrase passphrase rp.msg c.account in
    (set_account a >> exchange rp (codes "PASS " ++ a.pass)) c

-- How the loop ends.
pub data LoginEnd : Type 0 where
  accepted : Response → LoginEnd
  stopped : ℤ → Response → LoginEnd
  still : LoginEnd

-- What follows a command; a negative result goes to `done`.
unfoldable pub go_on : (ℤ → Response → Progress → M LoginEnd) → Progress → ℤ × Response → M LoginEnd
go_on next_round p (result, rp) =
    if is_neg result then return (stopped result rp) else next_round result rp p

-- One round, behind the `switch`.
unfoldable pub follow :
    (List Bytes → Bytes → Bytes)
    → (ℤ → Response → Progress → M LoginEnd)
    → Response
    → Next
    → M LoginEnd
unfolding own_pass exchange go_on
follow passphrase next_round rp okay = return (accepted rp)
follow passphrase next_round rp (stop e) = return (stopped e rp)
follow passphrase next_round rp (send command p) = do
  answer ← exchange rp command
  go_on next_round p answer
follow passphrase next_round rp (send_own_pass p) = do
  answer ← own_pass passphrase rp
  go_on next_round p answer

-- The loop, from a reply and the result of its command on.
unfoldable pub login_loop : (List Bytes → Bytes → Bytes) → ℕ → ℤ → Response → Progress → M LoginEnd
unfolding next_step follow
login_loop passphrase zero result rp p c = some (still, c)
login_loop passphrase (suc n) result rp p c =
    follow passphrase (login_loop passphrase n) rp (next_step c.account result rp.code p) c

-- The user name, by default anonymous.
unfoldable pub login_user : Bytes → Bytes
login_user [] = codes "anonymous"
login_user (b ∷ user) = b ∷ user

unfoldable pub is_anonymous : Bytes → Bool
is_anonymous user = strcmp_eq user (codes "anonymous") || strcmp_eq user (codes "ftp")

-- Before the first command; `pass` has 256 bytes.
unfoldable pub prepare_account : Bytes → Account → Account
unfolding login_user is_anonymous
prepare_account anon_password a =
    let user = login_user a.user in
    if is_anonymous user && strcmp_eq a.pass [] && not a.pass_is_empty
    then record a { user = user; pass = take 255 anon_password }
    else record a { user = user }

-- `memset(cip->pass, '*', sizeof(cip->pass) - 1);`
abbrev pub scrubbed : Bytes
scrubbed = replicate 255 b'*'

unfoldable pub scrub : Account → Account
unfolding is_anonymous
scrub a = if is_anonymous a.user || a.leave_pass then a else record a { pass = scrubbed }

-- The results behind which the password is kept to dial again.
unfoldable pub redials : ℤ → Bool
redials result =
    int_eq result k_err_connect_retryable_err
    || int_eq result k_err_connect_refused
    || int_eq result k_err_remote_host_closed_connection
    || int_eq result k_err_host_disconnected_during_login

-- The label `done2`.
unfoldable pub login_failed : ℤ → M ℤ
unfolding redials scrub
login_failed result c =
    let c' = if redials result then c else record c { account = scrub c.account } in
    if is_neg result
    then some (result, record c' { err_no = result })
    else if int_eq result (pos 0)
    then some (result, c')
    else some (k_err_login_host_misc_err, record c' { err_no = k_err_login_host_misc_err })

-- `cip->startingWorkingDirectory = StrDup(text)`; a buffer without a NUL is a fault.
unfoldable pub keep_starting_cwd : Option Bytes → M (Unit {0})
unfolding c_string
keep_starting_cwd none = fault
keep_starting_cwd (some b) = elim (c_string b) [
  | none ↦ fault
  | some text ↦ do
    ok ← allocate
    modify (λ c. record c { starting_cwd = if ok then some text else none })
]

-- The second try of the starting directory, into the local array.
unfoldable pub start_from_array : Bytes → M (Unit {0})
unfolding keep_starting_cwd get_cwd
start_from_array room = do
  pair ← get_cwd (array room)
  if int_eq pair.0 k_no_err then keep_starting_cwd (some pair.1) else return tt

unfoldable pub find_start : Bytes → Option Bytes → M (Unit {0})
unfolding start_from_array get_cwd keep_starting_cwd
find_start room none = start_from_array room
find_start room (some _) = do
  pair ← get_cwd cache
  if int_eq pair.0 k_no_err then (λ d. keep_starting_cwd d.cwd d) else start_from_array room

-- The cache is made if there is none and its size is not 0.
unfoldable pub make_cache : Option Bytes → M (Unit {0})
make_cache (some _) c = some (tt, c)
make_cache none c =
    if c.cwd_size == 0
    then some (tt, c)
    else (do
      ok ← allocate
      modify (λ d.
          if ok
          then record d { cwd = some (replicate d.cwd_size 0) }
          else record d { cwd_size = 0 }))
        c

-- The label `okay`. `unwritten` is what the array `cwd` holds.
unfoldable pub login_okay : Bytes → Response → M ℤ
unfolding make_cache find_start scrub
login_okay unwritten rp = do
  modify (done_with_response (some rp))
  modify (λ c. record c { logged_in = true; starting_cwd = none })
  (λ c. make_cache c.cwd c)
  (λ c. if c.account.do_not_get_starting_cwd then some (tt, c) else find_start unwritten c.cwd c)
  modify (λ c. record c { cur_transfer_type = b'A'; account = scrub c.account })
  return k_no_err

-- Behind the loop; the result is `none` if the fuel was spent.
unfoldable pub login_end : Bytes → LoginEnd → M (Option ℤ)
unfolding login_okay login_failed
login_end unwritten still = return none
login_end unwritten (accepted rp) = do result ← login_okay unwritten rp; return (some result)
login_end unwritten (stopped e rp) = do
  modify (done_with_response (some rp))
  result ← login_failed e
  return (some result)

-- FTPLoginHost behind its parameter checks.
unfoldable pub login_steps : (List Bytes → Bytes → Bytes) → Bytes → Bytes → ℕ → M (Option ℤ)
unfolding prepare_account login_loop login_end login_failed
login_steps passphrase anon_password unwritten fuel = do
  modify (λ c. record c { account = prepare_account anon_password c.account })
  rp ← init_response
  elim rp [
    | none ↦ do
      modify (λ c. record c { err_no = k_err_malloc_failed })
      result ← login_failed k_err_malloc_failed
      return (some result)
    | some rp ↦ do
      end ← login_loop passphrase fuel k_err_login_failed (record rp { code = 220 }) at_start
      login_end unwritten end
  ]

-- FTPLoginHost
unfoldable pub login_host : (List Bytes → Bytes → Bytes) → Bytes → Bytes → ℕ → M (Option ℤ)
unfolding login_steps
login_host passphrase anon_password unwritten fuel c =
    if ltb firewall_user_at_site_port2 c.account.firewall_type
    then some (some k_err_bad_parameter, c)
    else (elim (check_magic (return k_no_err) c) [
      | none ↦ none
      | some (magic, _) ↦
          if is_neg magic
          then some (some magic, c)
          else login_steps passphrase anon_password unwritten fuel c
    ])

-- QUIT in FTPCloseHost: its reply is not looked at.
unfoldable pub quit : M ℤ
quit = do
  rp ← init_response
  elim rp [
    | none ↦ λ c. some (k_err_malloc_failed, record c { err_no = k_err_malloc_failed })
    | some rp ↦ do
      answer ← r_cmd (record rp { eof_okay = true }) (codes "QUIT")
      modify (done_with_response (some answer.1))
      return k_no_err
  ]

-- FTPCloseHost, while no data connection is open.
unfoldable pub close_host : M ℤ
unfolding quit close_control_connection deallocate_host
close_host = check_magic (do
  result ← (λ c. if c.connected then quit c else some (k_no_err, c))
  modify (λ c. deallocate_host (close_control_connection c))
  return result)
