-- ===== src/Command.antt =====
-- libncftp/rcmd.c, the sending of commands: FTPSendCommandStr, FTPSendCommand, FTPCmd,
-- FTPCmdNoResponse and RCmd. A command is given as the text that its format makes.
pub mod Framing
pub mod Exchange
pub mod Asking
use libncftp.Base.{
  ℕ, suc, ◌+◌, ◌-◌, Bool, true, false, [], ◌∷◌, ◌++◌, Option, none, some, Bytes, length, take,
  unsnoc, leb, ◌==◌, if◌then◌else◌, ℤ, pos, neg, is_neg, int_eq,
}
use libncftp.Conn.{
  Written, whole, cut, nothing, Conn, M, ◌>>=◌, ◌>>◌, return, modify, fail_with, check_magic,
}
use libncftp.Conn.Errors.{
  k_no_err, k_err_malloc_failed, k_err_bad_parameter, k_err_not_connected,
  k_err_socket_write_failed,
}
use libncftp.Reply.{Response, init_response, get_response, done_with_response}

-- sizeof(longstring)
abbrev pub longstring_size : ℕ
longstring_size = 512

-- The command without the newline, or carriage return and newline, that it ends in; `none` where it
-- is empty, or has at most two bytes and ends in a newline.
unfoldable pub strip_eol : Bytes → Option Bytes
strip_eol command = elim (unsnoc command) [
  | none ↦ none
  | some (body, last) ↦
      if last == b'\n'
      then (if leb (length command) 2 then none else (elim (unsnoc body) [
        | none ↦ none
        | some (shorter, before) ↦ if before == b'\r' then some shorter else some body
      ]))
      else some command
]

-- What SWrite takes of a text: all of it, or fewer bytes, which the caller takes for success too.
unfoldable pub carried : Written → Bytes → Bytes
carried (cut n) text = take (suc n) text
carried _ text = text

-- SWrite, and what the server sends on what it took of the line.
unfoldable pub write_line : Bytes → M ℤ
unfolding carried
write_line text c = elim (c.writes (c.sent ++ (text ∷ []))) [
  | nothing ↦ some (k_err_socket_write_failed, record c { err_no = k_err_socket_write_failed })
  | w ↦
      let taken = carried w text in
      some (
        k_no_err,
        record c {
          sent = c.sent ++ (taken ∷ []);
          input = c.input ++ c.peer (c.sent ++ (taken ∷ []));
        },
      )
]

-- FTPSendCommandStr, for a command in a buffer of `siz` bytes.
unfoldable pub send_command_str : Bytes → ℕ → M ℤ
send_command_str command siz c =
    if c.ctrl_open
    then (elim (strip_eol command) [
      | none ↦ some (k_err_bad_parameter, c)
      | some body ↦
          if leb (siz - 1) (length body + 2)
          then some (k_err_bad_parameter, c)
          else write_line (body ++ (b'\r' ∷ b'\n' ∷ []))
              (record c { last_result_str = []; last_result_num = neg 1 })
    ])
    else fail_with k_err_not_connected c

-- FTPSendCommand: `vsnprintf(command, sizeof(command) - 1, …)` keeps at most 510 bytes.
unfoldable pub send_command : Bytes → M ℤ
send_command command = send_command_str (take (longstring_size - 2) command) longstring_size

-- RCmd: the result is the first digit of the reply's code, or a negative error.
unfoldable pub r_cmd : Response → Bytes → Conn → Option ((ℤ × Response) × Conn)
r_cmd rp command c = elim (check_magic (send_command command) c) [
  | none ↦ none
  | some (sent, c') ↦ if is_neg sent then some ((sent, rp), c') else (elim (get_response rp c') [
    | none ↦ none
    | some ((result, rp'), c'') ↦
        some ((if int_eq result k_no_err then pos rp'.code_type else result, rp'), c'')
  ])
]

-- FTPCmd: RCmd with a response of its own. The response is not freed if the send fails.
unfoldable pub ftp_cmd : Bytes → M ℤ
ftp_cmd command = check_magic (do
  rp ← init_response
  elim rp [
    | none ↦ fail_with k_err_malloc_failed
    | some rp ↦ do
      sent ← send_command command
      if is_neg sent then return sent else λ c. elim (get_response rp c) [
        | none ↦ none
        | some ((result, rp'), c') ↦ some (
          if int_eq result k_no_err then pos rp'.code_type else result,
          done_with_response (some rp') c',
        )
      ]
  ])

-- FTPCmdNoResponse
unfoldable pub ftp_cmd_no_response : Bytes → M ℤ
ftp_cmd_no_response command = check_magic (do send_command command; return k_no_err)

-- Named on an `unfolding` line, it opens all that runs a command.
unfoldable pub engine : Unit {0}
unfolding strip_eol carried write_line send_command_str send_command r_cmd ftp_cmd
    ftp_cmd_no_response get_response init_response done_with_response
engine = tt
