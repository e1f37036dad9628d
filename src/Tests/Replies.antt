-- ===== src/Tests/Replies.antt =====
-- Replies and commands on a concrete connection.
use libncftp.Base.{none, replicate, ℕ, ◌-◌, [], ◌∷◌, ◌++◌, some, codes, pos, ◌≡◌, refl, arith}
use libncftp.Conn.{Conn, cut, shutdown_host}
use libncftp.Conn.Errors.{k_no_err, k_err_remote_host_closed_connection}
use libncftp.Reply.{empty_response, get_response}
use libncftp.Reply.Frame.{wire_line, wire_reply, read_as, get_response-reply, get_response_421}
use libncftp.Reply.Outcome.{Ends, get_response-Ends}
use libncftp.Command.{ftp_cmd, strip_eol, carried, write_line, send_command, send_command_str}
use libncftp.Command.Framing.{after_write, Sendable}
use libncftp.Command.Exchange.{after_exchange, ftp_cmd-Answers}
use libncftp.Tests.{
  eight-StackEnds, conn_giving, answers, done, help, closing, done-IsReply, help-IsReply,
  closing-IsReply,
}

abbrev helped : Conn
helped = record (conn_giving help) {
  input = wire_reply help ++ (wire_line (codes "220 more") ∷ []);
}

get_response-reply_example :
    (n : ℕ) × (get_response empty_response helped
      ≡ some (
        (k_no_err, read_as help empty_response),
        record helped { allocs = n; input = wire_line (codes "220 more") ∷ [] },
      ))
get_response-reply_example =
    get_response-reply help empty_response helped (wire_line (codes "220 more") ∷ []) (λ n. refl)
      help-IsReply refl refl (ground arith)

abbrev closed : Conn
closed = record (conn_giving closing) { input = wire_reply closing ++ [] }

get_response_421_example :
    (n : ℕ) × (get_response empty_response closed
      ≡ some (
        (k_err_remote_host_closed_connection, read_as closing empty_response),
        record (shutdown_host (record closed { allocs = n; input = [] })) {
          err_no = k_err_remote_host_closed_connection;
        },
      ))
get_response_421_example =
    get_response_421 closing empty_response closed [] (λ n. refl) closing-IsReply refl refl refl

-- The three digits are missing.
abbrev garbage : Conn
garbage = record (conn_giving done) { input = wire_line (codes "x") ∷ [] }

get_response-Ends_example : Ends empty_response garbage (get_response empty_response garbage)
get_response-Ends_example = get_response-Ends empty_response garbage eight-StackEnds

noop-Sendable : Sendable (codes "NOOP")
unfolding strip_eol
noop-Sendable = record { fits = ground arith; no_eol = refl }

ftp_cmd-Answers_example :
    (n : ℕ) × (ftp_cmd (codes "NOOP") (conn_giving done)
      ≡ some (pos (b'2' - b'0'), after_exchange (conn_giving done) (codes "NOOP") done n))
ftp_cmd-Answers_example =
    ftp_cmd-Answers (conn_giving done) (codes "NOOP") done
      (answers (codes "NOOP") done done-IsReply (ground arith) noop-Sendable)

-- A line of three bytes, on a stack without a NUL: GetResponse reads behind its buffer.
short_line :
    get_response empty_response
      (record (conn_giving done) { input = wire_line (codes "22") ∷ []; junk = replicate 8 1 })
    ≡ none
unfolding get_response
short_line = refl

-- SWrite gives up behind three bytes, and the command counts as sent.
abbrev blocked : Conn
blocked = record (conn_giving done) { writes = λ lines. cut 2 }

short_write :
    send_command (codes "NOOP") blocked
    ≡ some (k_no_err, record (after_write blocked (codes "NOO")) { sent = codes "NOO" ∷ [] })
unfolding send_command strip_eol carried send_command_str write_line
short_write = refl
