-- ===== src/Command/Asking.antt =====
-- RCmd against any server, for the callers that go on to read the response.
use libncftp.Base.{
  ℕ, ◌<◌, ◌≤◌, true, List, [], ◌++◌, Option, none, some, Bytes, take, length, if◌then◌else◌, ℤ, pos,
  neg, is_neg, int_eq, ◌≡◌, refl, ◌∙◌, arith, strcmp_eq,
}
use libncftp.Conn.{Conn, Readline, library_magic}
use libncftp.Conn.Errors.{k_no_err, k_err_invalid_reply_from_server}
use libncftp.Reply.{Response, get_response}
use libncftp.Reply.Frame.{MemoryOk}
use libncftp.Reply.Outcome.{Ends, StackEnds, answered, dropped, garbled, get_response-Ends}
use libncftp.Reply.Heard.{Heard, get_response-Heard}
use libncftp.Command.{strip_eol, send_command, r_cmd}
use libncftp.Command.Framing.{
  Sends, Taken, wrote, refused, send_command_str-Sends, crlf, after_write,
}
use libncftp.Command.Exchange.{Keeps, Keeps-lost, negative_ne}

-- The line of a command: what fits the formatting buffer, without its own line end, and with carriage
-- return and newline. SWrite has taken `part` of it.
pub data LineOf (command part : Bytes) : Type 0 where
  line_of :
      (body : Bytes)
      → strip_eol (take 510 command) ≡ some body
      → Taken (body ++ crlf) part
      → LineOf command part

-- RCmd hears a reply, with at least one line, or ends in a negative result.
pub data Asked (command : Bytes) (c : Conn) (out : Option ((ℤ × Response) × Conn)) : Type 0 where
  heard :
      (rp : Response) (part : Bytes) (i : List Readline) (n : ℕ)
      → LineOf command part
      → c.ctrl_open ≡ true
      → rp.code_type ≤ 9
      → 1 ≤ length rp.msg
      → length i < length (after_write c part).input
      → out ≡ some ((pos rp.code_type, rp), record (after_write c part) { allocs = n; input = i })
      → Asked command c out
  unheard :
      (e : ℤ) (rp : Response) (d : Conn)
      → is_neg e ≡ true
      → Keeps c d
      → out ≡ some ((e, rp), d)
      → Asked command c out

-- RCmd behind the line.
answer_of : Option ((ℤ × Response) × Conn) → Option ((ℤ × Response) × Conn)
answer_of none = none
answer_of (some ((result, rp), c)) =
    some ((if int_eq result k_no_err then pos rp.code_type else result, rp), c)

answer_of-Asked :
    (rp : Response) (command : Bytes) (c : Conn) (text : Bytes)
    (out : Option ((ℤ × Response) × Conn))
    → LineOf command text
    → c.ctrl_open ≡ true
    → Ends rp (after_write c text) out
    → Heard (length (after_write c text).input) out
    → Asked command c (answer_of out)
unfolding answer_of
answer_of-Asked rp command c text out of is_open (answered rp' k i small eq) h =
    let (less, one) = rw eq at h refl in heard rp' text i k of is_open small one less (rw eq)
answer_of-Asked rp command c text out of is_open (dropped e rp' k i negative eq) h =
    unheard e rp' _ negative (Keeps-lost c [] (neg 1) (after_write c text).sent i k e)
      (rw (eq, negative_ne e negative))
answer_of-Asked rp command c text out of is_open (garbled i eq) h =
    unheard k_err_invalid_reply_from_server rp
      (record (after_write c text) { input = i; err_no = k_err_invalid_reply_from_server }) refl
      (ground arith) (rw eq)

r_cmd-answer_of :
    (rp : Response) (command : Bytes) (c : Conn) (out : Option (ℤ × Conn))
    → MemoryOk c
    → StackEnds c.junk
    → send_command command c ≡ out
    → Sends (take 510 command) 512 c out
    → strcmp_eq c.magic library_magic ≡ true
    → Asked command c (r_cmd rp command c)
unfolding r_cmd answer_of
r_cmd-answer_of rp command c out memory stack e (wrote body part stripped fits is_open taken eq)
      genuine =
    rw (r_cmd, genuine, e ∙ eq)
      (answer_of-Asked rp command c part (get_response rp (after_write c part))
        (line_of body stripped taken) is_open (get_response-Ends rp (after_write c part) stack)
        (get_response-Heard rp (after_write c part) memory))
r_cmd-answer_of rp command c out memory stack e (refused er err_no str num negative eq) genuine =
    rw (r_cmd, genuine, e ∙ eq, negative)
      (unheard er rp (record c { err_no = err_no; last_result_str = str; last_result_num = num })
        negative (ground arith) refl)

-- While memory is at hand, and where the stack has a NUL behind the fourth byte of GetResponse's line
-- buffer, RCmd on the library's own connection block ends, without a fault, in one of two ways,
-- whatever the server does. It hears a reply, which has at least one line and a class of at most 9,
-- for the command's line, of which SWrite has taken all or the first bytes, and reads at least one
-- line of the input; or its result is negative, and what `Keeps` names of the connection is kept.
pub r_cmd-Asked :
    (rp : Response) (command : Bytes) (c : Conn)
    → strcmp_eq c.magic library_magic ≡ true
    → MemoryOk c
    → StackEnds c.junk
    → Asked command c (r_cmd rp command c)
r_cmd-Asked rp command c genuine memory stack =
    r_cmd-answer_of rp command c (send_command command c) memory stack refl
      (unfold send_command in send_command_str-Sends (take 510 command) 512 c) genuine
