-- ===== src/Reply.antt =====
-- libncftp/rcmd.c, the reading of replies: InitResponse, GetResponse, SaveLastResponse,
-- ReInitResponse and DoneWithResponse, with AddLine of libncftp/linelist.c.
--
-- A line list is the list of its lines. GetResponse keeps its 512-byte line buffer from line to line:
-- `str` is the whole buffer, so that a line of fewer than four bytes shows what stood behind it; where
-- no NUL follows in the buffer, the text is read beyond its end, and the result is `none`.
pub mod Frame
pub mod Outcome
pub mod Heard
use libncftp.Base.{
  ℕ, zero, suc, ◌+◌, ◌-◌, Bool, true, false, not, ◌&&◌, ◌||◌, List, [], ◌∷◌, ◌++◌, Option, none,
  some, Bytes, length, drop, take, set, get_or, cstr, c_string, strncmp_eq, is_digit, atoi_from,
  ◌==◌, if◌then◌else◌, ℤ, pos, neg,
}
use libncftp.Conn.{
  Readline, line, eof, timeout, failed, Conn, M, ◌>>=◌, ◌>>◌, return, allocate, shutdown_host,
}
use libncftp.Conn.Errors.{
  k_no_err, k_err_control_timed_out, k_err_remote_host_closed_connection,
  k_err_invalid_reply_from_server,
}

-- `Response`; `no_save` is the bit kResponseNoSave of `printMode`.
pub record Response : Type 0 where
  pub msg : List Bytes
  pub code_type : ℕ
  pub code : ℕ
  pub no_save : Bool
  pub eof_okay : Bool
  pub had_eof : Bool

abbrev pub empty_response : Response
empty_response = record {
  msg = [];
  code_type = 0;
  code = 0;
  no_save = false;
  eof_okay = false;
  had_eof = false;
}

-- InitResponse: NULL where `calloc` fails.
unfoldable pub init_response : M (Option Response)
init_response = do ok ← allocate; return (if ok then some empty_response else none)

-- AddLine, without the pointer it returns. Two requests for memory, and no line if one fails.
unfoldable pub add_line : List Bytes → Bytes → Conn → List Bytes × Conn
add_line list text c =
    if c.malloc c.allocs
    then (
      if c.malloc (c.allocs + 1) then list ++ (text ∷ []) else list,
      record c { allocs = c.allocs + 2 },
    )
    else (list, record c { allocs = c.allocs + 1 })

-- `str` after SReadline stored a line in it.
abbrev pub store : Bytes → Bytes → Bytes
store l str = l ++ (0 ∷ drop (suc (length l)) str)

-- `if (str[result - 1] == '\n') str[result - 1] = '\0';`
abbrev pub chop : ℕ → Bytes → Bytes
chop result str = if get_or str (result - 1) 0 == b'\n' then set str (result - 1) 0 else str

-- How the wait for a line ends: the error, whether it is the end of the stream, and the unread
-- input; or the line buffer and the unread input.
pub data Got : Type 0 where
  lost : ℤ → Bool → List Readline → Got
  got : Bytes → List Readline → Got

-- The error for an outcome of SReadline that is no line.
pub no_line : Readline → List Readline → Got
no_line timeout rest = lost k_err_control_timed_out false rest
no_line failed rest = lost k_err_invalid_reply_from_server false rest
no_line _ rest = lost k_err_remote_host_closed_connection true rest

-- The first loop of GetResponse: blank lines are skipped. `no_wait` is the test made before each read
-- once the data connection has timed out.
pub first_line : (List Readline → Bool) → Bytes → List Readline → Got
unfolding no_line
first_line no_wait str [] =
    if no_wait [] then lost k_err_control_timed_out false [] else no_line eof []
first_line no_wait str (line (b ∷ l) ∷ rest) =
    let str' = store (b ∷ l) str in
    let again = first_line no_wait str' rest in
    if no_wait (line (b ∷ l) ∷ rest)
    then lost k_err_control_timed_out false (line (b ∷ l) ∷ rest)
    else if b == b'\n' || b == 0
    then again
    else got (chop (suc (length l)) str') rest
first_line no_wait str (r ∷ rest) =
    if no_wait (r ∷ rest) then lost k_err_control_timed_out false (r ∷ rest) else no_line r rest

-- One later line of a reply: the text for AddLine, and whether it was the last.
pub later_line : Bytes → Bytes → Option (Bytes × Bool)
later_line code str =
    if strncmp_eq 3 code (cstr str)
    then (elim (c_string (drop 4 str)) [
      | none ↦ none
      | some text ↦ some (text, not (get_or str 3 0 == b'-'))
    ])
    else some (cstr str, false)

-- What the second loop gives: its error and whether that is the end of the stream, if any; the lines;
-- the unread input; and the connection.
abbrev pub Later : Type 0
Later = (Option (ℤ × Bool) × List Bytes × List Readline) × Conn

-- `while (continuation)`
pub later_lines : Bytes → Bytes → List Readline → List Bytes → Conn → Option Later
unfolding no_line later_line add_line
later_lines code str [] msg c =
    some ((some (k_err_remote_host_closed_connection, true), msg, []), c)
later_lines code str (line (b ∷ l) ∷ rest) msg c =
    let str' = chop (suc (length l)) (store (b ∷ l) str) in
    elim (later_line code str') [
      | none ↦ none
      | some (text, last) ↦
          let (msg', c') = add_line msg text c in
          let more = later_lines code str' rest msg' c' in
          if last then some ((none, msg', rest), c') else more
    ]
later_lines code str (timeout ∷ rest) msg c =
    some ((some (k_err_control_timed_out, false), msg, rest), c)
later_lines code str (failed ∷ rest) msg c =
    some ((some (k_err_invalid_reply_from_server, false), msg, rest), c)
later_lines code str (_ ∷ rest) msg c =
    some ((some (k_err_remote_host_closed_connection, true), msg, rest), c)

-- FTPShutdownHost, then `cip->errNo = e; return (cip->errNo);`
abbrev pub lose : ℤ → Bool → Response → Conn → (ℤ × Response) × Conn
lose e at_eof rp c =
    ((e, record rp { had_eof = at_eof || rp.had_eof }), record (shutdown_host c) { err_no = e })

-- The end of GetResponse, on the whole reply: code 421 closes the connection.
pub finish_reply : Response → Conn → (ℤ × Response) × Conn
finish_reply rp c =
    if rp.code == 421
    then lose k_err_remote_host_closed_connection false rp c
    else ((k_no_err, rp), c)

-- What follows the second loop: its error, or the end on the lines that it read.
pub after_lines : Response → Later → (ℤ × Response) × Conn
unfolding finish_reply
after_lines rp ((some (e, at_eof), msg, rest), c) =
    lose e at_eof (record rp { msg = msg }) (record c { input = rest })
after_lines rp ((none, msg, rest), c) =
    finish_reply (record rp { msg = msg }) (record c { input = rest })

-- The body of GetResponse behind the first loop, for a line that starts with a digit.
pub read_reply : Response → Bytes → Conn → Option ((ℤ × Response) × Conn)
unfolding later_lines after_lines finish_reply add_line
read_reply rp str c = elim (c_string (drop 4 str)) [
  | none ↦ none
  | some text ↦
      let code = cstr (set str 3 0) in
      let (msg, c') = add_line rp.msg text c in
      let rp' = record rp {
        code_type = get_or str 0 0 - b'0';
        code = atoi_from 0 code;
        msg = msg;
      } in
      if get_or str 3 0 == b'-'
      then (elim (later_lines code (set str 3 0) c'.input msg c') [
        | none ↦ none
        | some later ↦ some (after_lines rp' later)
      ])
      else some (finish_reply rp' c')
]

-- What follows the first loop.
pub receive : Response → Conn → Got → Option ((ℤ × Response) × Conn)
unfolding read_reply
receive rp c (lost e at_eof rest) = some (lose e at_eof rp (record c { input = rest }))
receive rp c (got str rest) =
    if is_digit (get_or str 0 0)
    then read_reply rp str (record c { input = rest })
    else some (
      (k_err_invalid_reply_from_server, rp),
      record c { input = rest; err_no = k_err_invalid_reply_from_server },
    )

-- The test before each read of the first loop: the data connection has timed out, and nothing waits.
abbrev pub gone : Conn → List Readline → Bool
gone c input = c.data_timed_out && not (c.poll input)

-- GetResponse: the result, the response, and the connection.
unfoldable pub get_response : Response → Conn → Option ((ℤ × Response) × Conn)
unfolding first_line receive cstr c_string atoi_from strncmp_eq shutdown_host
get_response rp c = receive rp c (first_line (gone c) c.junk c.input)

-- SaveLastResponse. `lastFTPCmdResultStr` has 128 bytes, filled by Strncpy.
unfoldable pub save_last_response : Option Response → Conn → Conn
save_last_response none c = record c {
  last_result_str = [];
  last_result_num = neg 1;
  last_result_ll = [];
}
save_last_response (some rp) c = elim rp.msg [
  | [] ↦ record c { last_result_str = []; last_result_num = pos rp.code; last_result_ll = [] }
  | first ∷ others ↦ record c {
    last_result_str = take 127 first;
    last_result_num = pos rp.code;
    last_result_ll = first ∷ others;
  }
]

-- DoneWithResponse; the response is freed.
unfoldable pub done_with_response : Option Response → Conn → Conn
unfolding save_last_response
done_with_response none c = c
done_with_response (some rp) c = if rp.no_save then c else save_last_response (some rp) c

-- ReInitResponse: as above, and the response is all zero again.
unfoldable pub re_init_response : Option Response → Conn → Option Response × Conn
unfolding save_last_response
re_init_response none c = (none, c)
re_init_response (some rp) c =
    (some empty_response, if rp.no_save then c else save_last_response (some rp) c)
