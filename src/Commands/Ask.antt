-- ===== src/Commands/Ask.antt =====
-- The shape that the commands with a reply to read share in libncftp/c_size.c, c_modtime.c, c_rhelp.c
-- and c_utime.c: InitResponse, RCmd, the use of the reply, DoneWithResponse.
use libncftp.Base.{ℕ, ◌+◌, ◌++◌, Bool, true, ◌||◌, Bytes, none, some, [], ◌==◌, ℤ, pos, ◌≡◌, refl}
use libncftp.Conn.{Conn, M, ◌>>=◌, ◌>>◌, then_do, return, modify}
use libncftp.Reply.{Response, empty_response, init_response, done_with_response}
use libncftp.Reply.Frame.{Reply, read_as}
use libncftp.Command.{r_cmd}
use libncftp.Command.Framing.{crlf, after_write}
use libncftp.Command.Exchange.{Answers, r_cmd-Answers}
use libncftp.Commands.Names.Laws.{class_of}

-- `failed` is what is returned if there is no memory for the response.
unfoldable pub ask : {A : Type 0} → Bytes → M A → (ℤ → Response → M A) → M A
ask command failed use_reply = do
  rp ← init_response
  elim rp [
    | none ↦ failed
    | some rp ↦ do
      answer ← r_cmd rp command
      a ← use_reply answer.0 answer.1
      modify (done_with_response (some answer.1))
      return a
  ]

-- FTP_UNIMPLEMENTED_CMD
abbrev pub unimplemented_cmd : ℕ → Bool
unimplemented_cmd a = a == 500 || a == 502 || a == 504

-- FTP_SYNTAX_ERROR_IN_PARAMETERS
abbrev pub syntax_error_in_parameters : ℕ → Bool
syntax_error_in_parameters a = a == 501

-- The connection when the reply is used.
abbrev pub while_used : Conn → Bytes → ℕ → Conn
while_used c command n = record (after_write c (command ++ crlf)) { allocs = n; input = [] }

pub Answers-allocs :
    (c : Conn) (command : Bytes) (r : Reply) (n : ℕ)
    → Answers c command r
    → Answers (record c { allocs = n }) command r
Answers-allocs c command r n a = record {
  genuine = a.genuine;
  is_open = a.is_open;
  memory = a.memory;
  timely = a.timely;
  drained = a.drained;
  sendable = a.sendable;
  writes = a.writes;
  reply = a.reply;
  well = a.well;
  stays = a.stays;
}

-- The reply of a server that answers is what is used.
pub ask_lem :
    {A : Type 0}
    → (c : Conn) (command : Bytes) (r : Reply) (failed : M A) (use_reply : ℤ → Response → M A)
    → Answers c command r
    → (n : ℕ) × (ask command failed use_reply c
        ≡ then_do
            (λ a. λ d. some (a, done_with_response (some (read_as r empty_response)) d))
            (use_reply (pos (class_of r)) (read_as r empty_response) (while_used c command n)))
unfolding ask init_response
ask_lem c command r failed use_reply a =
    let c1 = record c { allocs = c.allocs + 1 } in
    let (n, e) = r_cmd-Answers c1 command r (Answers-allocs c command r (c.allocs + 1) a) in
    let mem : c.malloc c.allocs ≡ true = a.memory c.allocs in (n, rw (mem, e) refl)
