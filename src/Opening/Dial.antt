-- ===== src/Opening/Dial.antt =====
-- libncftp/open.c, FTPResetStatusVariables, FTPAllocateHost and FTPOpenHost, and
-- libncftp/c_opennologin.c, FTPOpenHostNoLogin.
--
-- What comes from outside is `Dialing`: the n-th attempt to connect, `maxDials`, what
-- FTPManualOverrideFeatures does to the block, and what FTPLoginHost needs. The loop over the dials has
-- no bound if `maxDials` is negative: it is on fuel, and its result is `none` where the fuel was
-- spent. The waiting between two dials, the times and the log are not in the state; `totalDials`,
-- which is reset, counts as `numDials` does.
pub mod Laws
pub mod Accepted
use libncftp.Base.{
  ℕ, zero, suc, ◌+◌, Bool, true, false, not, ◌&&◌, ◌||◌, List, [], ◌∷◌, Option, none, some, Bytes,
  codes, ltb, if◌then◌else◌, ℤ, pos, negsuc, is_neg, int_eq, strcmp_eq, replicate, length,
}
use libncftp.Conn.{
  Conn, M, ◌>>=◌, ◌>>◌, return, fail_with, modify, allocate, deallocate_host, library_magic,
}
use libncftp.Conn.Errors.{
  k_no_err, k_err_malloc_failed, k_err_bad_magic, k_err_bad_parameter, k_err_connect_retryable_err,
  k_err_connect_refused, k_err_connect_misc_err, k_err_remote_host_closed_connection,
  k_err_no_host_specified, k_err_open_host_misc_err, k_err_bad_remote_user_or_password,
}
use libncftp.Login.{login_host, close_host, redials}
use libncftp.Opening.Features.{query_features}
use libncftp.Opening.Welcome.{Attempt, open_control_connection}

pub record Dialing : Type 0 where
  pub attempts : ℕ → Attempt
  pub max_dials : ℤ
  pub override : Conn → Conn
  pub passphrase : List Bytes → Bytes → Bytes
  pub anon_password : Bytes
  pub unwritten : Bytes
  pub login_fuel : ℕ

-- FTPResetStatusVariables
unfoldable pub reset_status_variables : Conn → Conn
reset_status_variables c = record c {
  err_no = pos 0;
  last_result_str = [];
  last_result_num = pos 0;
  connected = false;
  logged_in = false;
  cur_transfer_type = 0;
  data_timed_out = false;
}

-- FTPAllocateHost, by whether there is a buffer.
unfoldable pub allocate_buf : Option Bytes → M ℤ
allocate_buf (some b) c = some (k_no_err, record c { buf = some (replicate (length b) 0) })
allocate_buf none c =
    if not c.do_alloc_buf
    then fail_with k_err_bad_parameter c
    else (do
      ok ← allocate
      if ok
          then (do modify (λ c. record c { buf = some (replicate c.buf_size 0) }); return k_no_err)
          else fail_with k_err_malloc_failed)
        c

unfoldable pub allocate_host : M ℤ
unfolding allocate_buf
allocate_host c = allocate_buf c.buf c

-- How a round of the loop ends: with another dial, behind the loop, or out of the function; `still`
-- is a login whose fuel was spent.
pub data Round : Type 0 where
  again : ℤ → Round
  ended : ℤ → Round
  returned : ℤ → Round
  still : Round

-- `result > 0` is another error.
abbrev pub misc_if_positive : ℤ → ℤ
misc_if_positive result =
    if is_neg result || int_eq result (pos 0) then result else k_err_open_host_misc_err

-- What follows FTPLoginHost.
unfoldable pub after_login : Dialing → Option ℤ → M Round
unfolding query_features close_host
after_login o none = return still
after_login o (some result) =
    if int_eq result k_no_err
    then (do _ ← query_features; modify o.override; return (ended k_no_err))
    else (do
      _ ← close_host
      (λ c.
          if int_eq result k_err_bad_remote_user_or_password
            && not (strcmp_eq c.account.user (codes "anonymous"))
          then some (ended result, c)
          else some (again result, c)))

-- What follows OpenControlConnection.
unfoldable pub after_connect : Dialing → ℤ → M Round
unfolding after_login login_host redials deallocate_host
after_connect o result =
    if int_eq result k_no_err
    then (do
      login ← login_host o.passphrase o.anon_password o.unwritten o.login_fuel
      after_login o login)
    else if redials result
    then return (again result)
    else (do modify deallocate_host; return (returned (misc_if_positive result)))

-- One round, the n-th.
unfoldable pub dial : Dialing → ℕ → M Round
unfolding allocate_host open_control_connection after_connect
dial o n = do
  memory ← allocate_host
  if is_neg memory
      then return (returned memory)
      else (do result ← open_control_connection (o.attempts n); after_connect o result)

-- `cip->maxDials < 0 || cip->numDials < cip->maxDials`
abbrev pub may_dial : ℤ → ℕ → Bool
may_dial (pos m) n = ltb n m
may_dial (negsuc _) n = true

abbrev pub then_leave : (ℤ → M ℤ) → ℤ → M (Option ℤ)
then_leave behind result = do result' ← behind result; return (some result')

-- The loop, for what a round does and what stands behind the loop.
unfoldable pub dial_loop : ℤ → (ℕ → M Round) → (ℤ → M ℤ) → ℕ → ℕ → ℤ → M (Option ℤ)
dial_loop max_dials round behind zero n result = return none
dial_loop max_dials round behind (suc fuel) n result =
    if may_dial max_dials n
    then (do
      end ← round n
      elim end [
        | again r ↦ dial_loop max_dials round behind fuel (n + 1) r
        | ended r ↦ then_leave behind r
        | returned r ↦ return (some r)
        | still ↦ return none
      ])
    else then_leave behind result

-- Behind the loop of FTPOpenHost.
unfoldable pub open_end : ℤ → M ℤ
unfolding deallocate_host
open_end result c =
    let result' = misc_if_positive result in
    some (result', if int_eq result' k_no_err then c else deallocate_host c)

-- FTPOpenHost
unfoldable pub open_host : Dialing → ℕ → M (Option ℤ)
unfolding dial dial_loop open_end reset_status_variables
open_host o fuel c =
    if not (strcmp_eq c.magic library_magic)
    then some (some k_err_bad_magic, c)
    else elim c.account.host [
      | [] ↦ some (some k_err_no_host_specified, record c { err_no = k_err_no_host_specified })
      | _ ∷ _ ↦
          dial_loop o.max_dials (dial o) open_end fuel 0 k_err_connect_misc_err
            (o.override (reset_status_variables c))
    ]

-- The errors after which FTPOpenHostNoLogin dials again.
unfoldable pub redials_no_login : ℤ → Bool
redials_no_login result =
    int_eq result k_err_connect_retryable_err
    || int_eq result k_err_connect_refused
    || int_eq result k_err_remote_host_closed_connection

-- One round of FTPOpenHostNoLogin.
unfoldable pub dial_no_login : (ℕ → Attempt) → ℕ → M Round
unfolding allocate_host open_control_connection redials_no_login
dial_no_login attempts n = do
  memory ← allocate_host
  if is_neg memory then return (returned memory) else (do
    result ← open_control_connection (attempts n)
    return (
        if int_eq result k_no_err
        then ended result
        else if redials_no_login result
        then again result
        else returned result))

-- FTPOpenHostNoLogin
unfoldable pub open_host_no_login : (ℕ → Attempt) → ℤ → ℕ → M (Option ℤ)
unfolding dial_no_login dial_loop
open_host_no_login attempts max_dials fuel c =
    if not (strcmp_eq c.magic library_magic)
    then some (some k_err_bad_magic, c)
    else elim c.account.host [
      | [] ↦ some (some k_err_bad_parameter, record c { err_no = k_err_bad_parameter })
      | _ ∷ _ ↦ dial_loop max_dials (dial_no_login attempts) return fuel 0 k_err_connect_misc_err c
    ]
