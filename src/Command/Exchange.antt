-- ===== src/Command/Exchange.antt =====
-- One command and its reply.
use libncftp.Base.{
  ℕ, ◌+◌, ◌-◌, ◌≤◌, Bool, true, false, List, [], ◌∷◌, ◌++◌, Option, none, some, Bytes, take,
  if◌then◌else◌, ℤ, pos, neg, negsuc, is_neg, int_eq, ◌≡◌, ◌≢◌, refl, ◌∙◌, arith, Bool-cases, inl,
  inr, strcmp_eq, append-nil, ◌⊎◌,
}
use libncftp.Conn.{Conn, whole, Readline, library_magic, then_do, shutdown_host, dispose_buf}
use libncftp.Conn.Errors.{
  k_no_err, k_err_invalid_reply_from_server, k_err_bad_magic, k_err_malloc_failed,
}
use libncftp.Reply.{
  Response, empty_response, init_response, get_response, done_with_response, save_last_response,
}
use libncftp.Reply.Frame.{
  Reply, IsReply, MemoryOk, wire_reply, number_of, read_as, texts_of, get_response-reply,
}
use libncftp.Reply.Outcome.{Ends, StackEnds, answered, dropped, garbled, get_response-Ends}
use libncftp.Command.{send_command, ftp_cmd, r_cmd}
use libncftp.Command.Framing.{
  Sends, wrote, refused, send_command_str-Sends, Sendable, crlf, after_write, send_command_lem,
}

-- The connection after a whole exchange: the line is sent, the reply is read, and it is the last
-- result. `n` counts the requests for memory.
abbrev pub after_exchange : Conn → Bytes → Reply → ℕ → Conn
after_exchange c command r n = record c {
  last_result_str = take 127 r.first;
  last_result_num = pos (number_of r);
  last_result_ll = texts_of r;
  sent = c.sent ++ ((command ++ crlf) ∷ []);
  input = [];
  allocs = n;
}

-- A connection over which the next exchange goes through: nothing unread is left of earlier replies,
-- and the server answers the command with the reply `r`.
pub record Answers (c : Conn) (command : Bytes) (r : Reply) : Type 0 where
  pub genuine : strcmp_eq c.magic library_magic ≡ true
  pub is_open : c.ctrl_open ≡ true
  pub memory : MemoryOk c
  pub timely : c.data_timed_out ≡ false
  pub drained : c.input ≡ []
  pub sendable : Sendable command
  pub writes : c.writes (c.sent ++ ((command ++ crlf) ∷ [])) ≡ whole
  pub reply : c.peer (c.sent ++ ((command ++ crlf) ∷ [])) ≡ wire_reply r
  pub well : IsReply r
  pub stays : number_of r ≢ 421

-- What no exchange changes, and what a lost connection does to the directory cache.
pub record Keeps (c d : Conn) : Type 0 where
  pub transfer_type : d.cur_transfer_type ≡ c.cur_transfer_type
  pub size_known : d.has_size ≡ c.has_size
  pub mdtm_known : d.has_mdtm ≡ c.has_mdtm
  pub mdtm_set_known : d.has_mdtm_set ≡ c.has_mdtm_set
  pub utime_known : d.has_site_utime ≡ c.has_site_utime
  pub magic_kept : d.magic ≡ c.magic
  pub cwd_kept : (d.cwd ≡ c.cwd) ⊎ (d.cwd ≡ none)
  pub stack_kept : d.junk ≡ c.junk
  pub memory_kept : d.malloc ≡ c.malloc
  pub account_kept : d.account ≡ c.account
  pub buf_kept : (d.buf ≡ c.buf) ⊎ (d.buf ≡ dispose_buf c.do_alloc_buf c.buf)
  pub stays_open : d.ctrl_open ≡ true → (c.ctrl_open ≡ true) × (d.cwd ≡ c.cwd)

-- A closed or broken exchange leaves a negative result; an answered one leaves a reply class of at
-- most 9 and changes only the last result, what was sent and read, and the count of requests.
pub data CommandEnds (c : Conn) (out : Option (ℤ × Conn)) : Type 0 where
  replied :
      (class : ℕ) (str : Bytes) (num : ℤ) (ll : List Bytes) (sent : List Bytes) (i : List Readline)
      (n : ℕ)
      → class ≤ 9
      → out
        ≡ some (
          pos class,
          record c {
            last_result_str = str;
            last_result_num = num;
            last_result_ll = ll;
            sent = sent;
            input = i;
            allocs = n;
          },
        )
      → CommandEnds c out
  failed :
      (e : ℤ) (c' : Conn) → is_neg e ≡ true → Keeps c c' → out ≡ some (e, c') → CommandEnds c out

-- DoneWithResponse on a response that is saved.
pub done_with_response_lem :
    (rp : Response) (c : Conn)
    → (str : Bytes) × (num : ℤ) × (ll : List Bytes) × (done_with_response (some rp) c
        ≡ record c { last_result_str = str; last_result_num = num; last_result_ll = ll })
unfolding done_with_response save_last_response
done_with_response_lem rp c = go rp.no_save rp.msg refl refl
  where
    go :
        (b : Bool) (msg : List Bytes)
        → rp.no_save ≡ b
        → rp.msg ≡ msg
        → (str : Bytes) × (num : ℤ) × (ll : List Bytes) × (done_with_response (some rp) c
            ≡ record c { last_result_str = str; last_result_num = num; last_result_ll = ll })
    go true msg e m = (c.last_result_str, c.last_result_num, c.last_result_ll, ground arith)
    go false [] e m = ([], pos rp.code, [], ground arith)
    go false (first ∷ others) e m = (take 127 first, pos rp.code, first ∷ others, ground arith)

-- FTPCmd behind a line that was written.
finish_cmd : Option ((ℤ × Response) × Conn) → Option (ℤ × Conn)
finish_cmd none = none
finish_cmd (some ((result, rp), c)) =
    some
      (if int_eq result k_no_err then pos rp.code_type else result, done_with_response (some rp) c)

pub negative_ne : (e : ℤ) → is_neg e ≡ true → int_eq e k_no_err ≡ false
negative_ne (pos n) h = cc
negative_ne (negsuc n) h = refl

Keeps-saved :
    (c d : Conn) (str : Bytes) (num : ℤ) (ll : List Bytes)
    → Keeps c d
    → Keeps c (record d { last_result_str = str; last_result_num = num; last_result_ll = ll })
Keeps-saved c d str num ll k = ground arith

pub Keeps-lost :
    (c : Conn) (str : Bytes) (num : ℤ) (sent : List Bytes) (i : List Readline) (n : ℕ) (e : ℤ)
    → Keeps c
        (record (shutdown_host (record c {
          last_result_str = str;
          last_result_num = num;
          sent = sent;
          input = i;
          allocs = n;
        })) { err_no = e })
unfolding shutdown_host
Keeps-lost c str num sent i n e = ground arith

finish_neg :
    (c : Conn) (out : (ℤ × Response) × Conn)
    → is_neg out.0.0 ≡ true
    → Keeps c out.1
    → CommandEnds c (finish_cmd (some out))
unfolding finish_cmd
finish_neg c ((e, rp), d) h kept =
    let (str, num, ll, saved) = done_with_response_lem rp d in
    failed e (record d { last_result_str = str; last_result_num = num; last_result_ll = ll }) h
      (Keeps-saved c d str num ll kept) (rw (negative_ne e h, saved))

finish_cmd-Ends :
    (rp : Response) (c d : Conn) (str : Bytes) (num : ℤ) (sent : List Bytes) (i : List Readline)
    (n : ℕ)
    → d ≡ record c {
      last_result_str = str;
      last_result_num = num;
      sent = sent;
      input = i;
      allocs = n;
    }
    → (out : Option ((ℤ × Response) × Conn)) → Ends rp d out
    → CommandEnds c (finish_cmd out)
unfolding finish_cmd
finish_cmd-Ends rp c d str num sent i n e out (answered rp' k j small eq) =
    let (str', num', ll, saved) = done_with_response_lem rp' (record d { allocs = k; input = j }) in
    replied rp'.code_type str' num' ll sent j k small (rw (eq, saved, e))
finish_cmd-Ends rp c d str num sent i n e out (dropped er rp' k j negative eq) =
    rw eq (finish_neg c ((er, rp'), _) negative (rw e (Keeps-lost c str num sent j k er)))
finish_cmd-Ends rp c d str num sent i n e out (garbled j eq) =
    rw eq (finish_neg c ((k_err_invalid_reply_from_server, rp), _) refl (rw e (ground arith)))

-- FTPCmd with the response block at hand.
cmd_with : Bytes → Response → Conn → Option (ℤ × Conn)
cmd_with command rp c =
    then_do (λ sent. λ d. if is_neg sent then some (sent, d) else finish_cmd (get_response rp d))
      (send_command command c)

ftp_cmd-cmd_with :
    (command : Bytes) (c : Conn)
    → ftp_cmd command c ≡ (
        if strcmp_eq c.magic library_magic
        then (if c.malloc c.allocs
            then cmd_with command empty_response (record c { allocs = c.allocs + 1 })
            else some (
              k_err_malloc_failed,
              record c { allocs = c.allocs + 1; err_no = k_err_malloc_failed },
            ))
        else some (k_err_bad_magic, c))
unfolding ftp_cmd cmd_with finish_cmd init_response
ftp_cmd-cmd_with command c = ground arith

cmd_with-Ends :
    (command : Bytes) (rp : Response) (c : Conn) (k : ℕ) (out : Option (ℤ × Conn))
    → send_command command (record c { allocs = k }) ≡ out
    → Sends (take 510 command) 512 (record c { allocs = k }) out
    → StackEnds c.junk
    → CommandEnds c (cmd_with command rp (record c { allocs = k }))
unfolding cmd_with
cmd_with-Ends command rp c k out e (wrote body part stripped fits is_open taken eq) stack =
    let d = after_write (record c { allocs = k }) part in
    rw (e ∙ eq) (
      finish_cmd-Ends rp c d [] (neg 1) d.sent d.input k refl (get_response rp d)
        (get_response-Ends rp d stack))
cmd_with-Ends command rp c k out e (refused er err_no str num negative eq) stack =
    let d = record c {
      err_no = err_no;
      last_result_str = str;
      last_result_num = num;
      allocs = k;
    } in
    rw (e ∙ eq) (failed er d negative (ground arith) (rw negative))

pub ftp_cmd-CommandEnds :
    (command : Bytes) (c : Conn) → StackEnds c.junk → CommandEnds c (ftp_cmd command c)
ftp_cmd-CommandEnds command c stack =
    rw (ftp_cmd-cmd_with command c) (elim (Bool-cases (strcmp_eq c.magic library_magic)) [
      | inr bad ↦ rw bad (failed k_err_bad_magic c refl (ground arith) refl)
      | inl good ↦ elim (Bool-cases (c.malloc c.allocs)) [
        | inr bad ↦
            rw (good, bad)
              (failed k_err_malloc_failed
                (record c { allocs = c.allocs + 1; err_no = k_err_malloc_failed }) refl
                (ground arith) refl)
        | inl fine ↦
            rw (good, fine)
              (cmd_with-Ends command empty_response c (c.allocs + 1) _ refl
                (unfold send_command in send_command_str-Sends (take 510 command) 512 _) stack)
      ]
    ])

pub done_with_reply :
    (r : Reply) (d : Conn)
    → done_with_response (some (read_as r empty_response)) d ≡ record d {
      last_result_str = take 127 r.first;
      last_result_num = pos (number_of r);
      last_result_ll = texts_of r;
    }
unfolding done_with_response save_last_response
done_with_reply r d = ground arith

cmd_with_reply :
    (command : Bytes) (c : Conn) (r : Reply) (n : ℕ)
    → send_command command c ≡ some (k_no_err, after_write c (command ++ crlf))
    → get_response empty_response (after_write c (command ++ crlf))
      ≡ some (
        (k_no_err, read_as r empty_response),
        record (after_write c (command ++ crlf)) { allocs = n; input = [] },
      )
    → cmd_with command empty_response c ≡ some (pos (r.d1 - b'0'), after_exchange c command r n)
unfolding cmd_with finish_cmd
cmd_with_reply command c r n e f = rw (e, f, done_with_reply r)

module _ (c : Conn) (command : Bytes) (r : Reply) (a : Answers c command r) where
  -- The reply is next to be read once the line is written.
  queued_reply : (after_write c (command ++ crlf)).input ≡ wire_reply r ++ []
  queued_reply = rw (append-nil, a.drained, a.reply)

  -- Where the server answers the command with the reply `r` as RFC 959 frames it, FTPCmd writes the
  -- command with one carriage return and newline, reads exactly that reply, and returns the first
  -- digit of its code; the code and the reply's lines are the last result; nothing else changes but
  -- the count of requests for memory. The premises are those of `Answers`.
  pub ftp_cmd-Answers :
      (n : ℕ) × (ftp_cmd command c ≡ some (pos (r.d1 - b'0'), after_exchange c command r n))
  ftp_cmd-Answers =
      let d = after_write (record c { allocs = c.allocs + 1 }) (command ++ crlf) in
      let (n, e) =
        get_response-reply r empty_response d [] a.memory a.well a.timely queued_reply a.stays in
      (
        n,
        ftp_cmd-cmd_with command c
            ∙ rw (a.genuine, a.memory c.allocs)
                (cmd_with_reply command (record c { allocs = c.allocs + 1 }) r n
                  (send_command_lem command (record c { allocs = c.allocs + 1 }) a.sendable
                    a.is_open a.writes)
                  e),
      )

module _ (c : Conn) (command : Bytes) (r : Reply) (a : Answers c command r) where
  -- RCmd on any response: it keeps the reply for the caller.
  pub r_cmd-reply :
      (rp : Response)
      → (n : ℕ) × (r_cmd rp command c
          ≡ some (
            (pos (r.d1 - b'0'), read_as r rp),
            record (after_write c (command ++ crlf)) { allocs = n; input = [] },
          ))
  unfolding r_cmd
  r_cmd-reply rp =
      let (n, e) =
        get_response-reply r rp (after_write c (command ++ crlf)) [] a.memory a.well a.timely
          (queued_reply c command r a) a.stays in
      (n, rw (a.genuine, send_command_lem command c a.sendable a.is_open a.writes, r_cmd, e))

  -- The same on a fresh response.
  pub r_cmd-Answers :
      (n : ℕ) × (r_cmd empty_response command c
        ≡ some (
          (pos (r.d1 - b'0'), read_as r empty_response),
          record (after_write c (command ++ crlf)) { allocs = n; input = [] },
        ))
  r_cmd-Answers = r_cmd-reply empty_response
