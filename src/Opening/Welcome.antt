-- ===== src/Opening/Welcome.antt =====
-- libncftp/ftp.c, OpenControlConnection: what becomes of a connection attempt, and the server's welcome.
--
-- What the resolver and the sockets do is one `Attempt`: the call that fails, with its `errno` where
-- the code looks at it, or a connection with the lines that the server sends on its own. The variant
-- without signals is modelled, which is the one that reads with SReadline.
pub mod Laws
use libncftp.Base.{
  ℕ, Bool, true, false, ◌&&◌, ◌||◌, not, List, [], ◌∷◌, Option, none, some, Bytes, codes, leb,
  if◌then◌else◌, ℤ, is_neg, strncmp_eq,
}
use libncftp.Conn.{Conn, Readline, M, ◌>>=◌, ◌>>◌, fail_with, modify}
use libncftp.Conn.Errors.{
  k_no_err, k_err_malloc_failed, k_err_connect_retryable_err, k_err_connect_refused,
  k_err_connect_misc_err, k_err_host_unknown, k_err_new_stream_socket, k_err_bind_ctrl_socket,
  k_err_get_sock_name, k_err_fdopen_w,
}
use libncftp.Reply.{Response, init_response, get_response, done_with_response}
use libncftp.Commands.Probe.{server_type_ncftpd, server_type_roxen}
use libncftp.Commands.Probe.Stat.{contains}
use libncftp.Opening.Features.Assume.{
  server_type_wu_ftpd, server_type_pro_ftpd, server_type_microsoft_ftp, server_type_net_ware_ftp,
  server_type_dgux_ftp, server_type_ibm_ftpcs, server_type_pyramid,
}

-- The values of `errno` that are told apart.
pub data Errno : Type 0 where
  enetdown enetunreach econnaborted etimedout ehostdown econnreset econnrefused other : Errno

-- `no_readline` is a failure of InitSReadlineInfo, which a timeout of 0 is.
pub data Attempt : Type 0 where
  unknown_host no_socket no_bind no_sock_name no_readline : Attempt
  no_connection : Errno → Attempt
  up : List Readline → Attempt

-- The `switch` on `errno`.
unfoldable pub connect_error : Errno → ℤ
connect_error econnrefused = k_err_connect_refused
connect_error other = k_err_connect_misc_err
connect_error _ = k_err_connect_retryable_err

-- kServerTypeUnknown and the types that only have a name
abbrev pub server_type_unknown : ℕ
server_type_unknown = 0

abbrev pub server_type_war_ftpd : ℕ
server_type_war_ftpd = 5

abbrev pub server_type_serv_u : ℕ
server_type_serv_u = 6

abbrev pub server_type_wftpd : ℕ
server_type_wftpd = 7

abbrev pub server_type_vftpd : ℕ
server_type_vftpd = 8

abbrev pub server_type_ftp_max : ℕ
server_type_ftp_max = 9

abbrev pub server_type_ws_ftp : ℕ
server_type_ws_ftp = 12

-- `(secondLine != NULL) && (strstr(secondLine, "WarFTP") != NULL)`
abbrev pub second_names_war : List Bytes → Bool
second_names_war [] = false
second_names_war (second ∷ _) = contains (codes "WarFTP") second

-- The server's type, from the first line of its welcome and the lines behind it.
unfoldable pub recognize : Bytes → List Bytes → ℕ
unfolding strncmp_eq
recognize first others =
    if contains (codes "Version wu-") first
    then server_type_wu_ftpd
    else if contains (codes "NcFTPd") first
    then server_type_ncftpd
    else if strncmp_eq 7 (codes "ProFTPD") first
    then server_type_pro_ftpd
    else if contains (codes "Microsoft FTP Service") first
    then server_type_microsoft_ftp
    else if contains (codes "(NetWare ") first
    then server_type_net_ware_ftp
    else if contains (codes "(DG/UX ") first
    then server_type_dgux_ftp
    else if contains (codes "IBM FTP CS ") first
    then server_type_ibm_ftpcs
    else if contains (codes "DC/OSx") first
    then server_type_pyramid
    else if strncmp_eq 5 (codes "WFTPD") first
    then server_type_wftpd
    else if strncmp_eq 10 (codes "Serv-U FTP") first
    then server_type_serv_u
    else if contains (codes "VFTPD") first
    then server_type_vftpd
    else if strncmp_eq 7 (codes "FTP-Max") first
    then server_type_ftp_max
    else if contains (codes "Roxen") first
    then server_type_roxen
    else if contains (codes "WS_FTP") first
    then server_type_ws_ftp
    else if second_names_war others
    then server_type_war_ftpd
    else server_type_unknown

-- The label `fatal`: the response is freed, and the sockets are closed.
unfoldable pub fatal : ℤ → Option Response → Conn → Option (ℤ × Conn)
unfolding done_with_response
fatal result rp c = some (result, record (done_with_response rp c) { ctrl_open = false })

-- `result = cip->errNo = e; goto fatal;`
abbrev pub fatal_with : ℤ → Option Response → Conn → Option (ℤ × Conn)
fatal_with e rp c = fatal e rp (record c { err_no = e })

-- What is kept of the welcome's lines.
unfoldable pub note_server : List Bytes → Conn → Conn
unfolding recognize
note_server [] c = c
note_server (first ∷ others) c = record c { server_type = recognize first others }

abbrev pub is_silent : List Bytes → Bool
is_silent [] = true
is_silent (_ ∷ _) = false

-- From GetResponse for the welcome on.
unfoldable pub heard_welcome : (ℤ × Response) × Conn → Option (ℤ × Conn)
unfolding note_server fatal done_with_response
heard_welcome ((result, rp), c) =
    if is_neg result && is_silent rp.msg
    then fatal result (some rp) c
    else if leb 4 rp.code_type
    then fatal_with k_err_connect_retryable_err (some rp) (note_server rp.msg c)
    else if is_neg result
    then fatal result (some rp) (note_server rp.msg c)
    else some (
      k_no_err,
      done_with_response (some rp) (record (note_server rp.msg c) { connected = true }),
    )

-- From InitResponse on.
unfoldable pub await_welcome : M ℤ
unfolding heard_welcome fatal get_response
await_welcome = do
  rp ← init_response
  elim rp [
    | none ↦ fatal_with k_err_malloc_failed none
    | some rp ↦ λ c. elim (get_response rp c) [ none ↦ none | some out ↦ heard_welcome out ]
  ]

-- OpenControlConnection
unfoldable pub open_control_connection : Attempt → M ℤ
unfolding await_welcome connect_error fatal
open_control_connection unknown_host = fail_with k_err_host_unknown
open_control_connection no_socket = fail_with k_err_new_stream_socket
open_control_connection no_bind = fail_with k_err_bind_ctrl_socket
open_control_connection no_sock_name = fatal_with k_err_get_sock_name none
open_control_connection no_readline = fatal_with k_err_fdopen_w none
open_control_connection (no_connection e) = fatal_with (connect_error e) none
open_control_connection (up lines) = do
  modify (λ c. record c { ctrl_open = true; input = lines })
  await_welcome
