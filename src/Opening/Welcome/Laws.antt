-- ===== src/Opening/Welcome/Laws.antt =====
-- How OpenControlConnection ends, and what it learns of a welcome.
use libncftp.Base.{
  ℕ, ◌+◌, ◌-◌, ◌<◌, true, false, List, [], ◌∷◌, Option, none, some, Bytes, ℤ, pos, is_neg, leb, ◌≡◌,
  ◌≢◌, refl, ◌∙◌, ap, inl, inr, arith, Bool-cases, take, append-nil,
}
use libncftp.Conn.{Conn, shutdown_host}
use libncftp.Conn.Errors.{
  k_no_err, k_err_malloc_failed, k_err_get_sock_name, k_err_fdopen_w,
  k_err_invalid_reply_from_server,
}
use libncftp.Reply.{Response, get_response, empty_response, init_response, done_with_response}
use libncftp.Reply.Frame.{
  Middle, Reply, IsReply, texts_more, MemoryOk, wire_reply, number_of, read_as, texts_of,
  get_response-reply,
}
use libncftp.Reply.Outcome.{Ends, StackEnds, answered, dropped, garbled, get_response-Ends}
use libncftp.Command.Exchange.{done_with_response_lem, done_with_reply}
use libncftp.Opening.Welcome.{
  Errno, enetdown, enetunreach, econnaborted, etimedout, ehostdown, econnreset, econnrefused, other,
  Attempt, up, no_connection, no_sock_name, no_readline, connect_error, recognize, note_server,
  fatal, is_silent, heard_welcome, await_welcome, open_control_connection,
}

-- The control connection is open, and the result is kNoErr; or it is closed, and the result is
-- negative. What GetResponse finds on the stack is as it was.
pub data Dialled (junk : Bytes) (out : Option (ℤ × Conn)) : Type 0 where
  through :
      (d : Conn)
      → d.connected ≡ true
      → d.ctrl_open ≡ true
      → out ≡ some (k_no_err, d)
      → Dialled junk out
  not_through :
      (e : ℤ) (d : Conn)
      → is_neg e ≡ true
      → d.ctrl_open ≡ false
      → d.junk ≡ junk
      → out ≡ some (e, d)
      → Dialled junk out

fatal-Dialled :
    (e : ℤ) (rp : Option Response) (c : Conn) → is_neg e ≡ true → Dialled c.junk (fatal e rp c)
unfolding fatal done_with_response
fatal-Dialled e none c h = not_through e (record c { ctrl_open = false }) h refl refl refl
fatal-Dialled e (some rp) c h =
    let (str, num, ll, saved) = done_with_response_lem rp c in
    not_through e (record (done_with_response (some rp) c) { ctrl_open = false }) h refl
      (ap (λ d. d.junk) saved) refl

-- Neither of the two last steps touches the connection itself.
note_server-open : (msg : List Bytes) (c : Conn) → (note_server msg c).ctrl_open ≡ c.ctrl_open
unfolding note_server
note_server-open [] c = refl
note_server-open (first ∷ others) c = refl

note_server-junk : (msg : List Bytes) (c : Conn) → (note_server msg c).junk ≡ c.junk
unfolding note_server
note_server-junk [] c = refl
note_server-junk (first ∷ others) c = refl

fatal_noted :
    (e : ℤ) (rp : Response) (c d : Conn)
    → is_neg e ≡ true
    → d.junk ≡ c.junk
    → Dialled c.junk (fatal e (some rp) d)
fatal_noted e rp c d h same = rw (← same) (fatal-Dialled e (some rp) d h)

done-stays :
    (rp : Response) (c : Conn)
    → ((done_with_response (some rp) c).connected ≡ c.connected)
      × ((done_with_response (some rp) c).ctrl_open ≡ c.ctrl_open)
done-stays rp c =
    let (str, num, ll, saved) = done_with_response_lem rp c in
    (ap (λ d. d.connected) saved, ap (λ d. d.ctrl_open) saved)

heard_welcome-failed :
    (e : ℤ) (rp : Response) (c : Conn)
    → is_neg e ≡ true
    → Dialled c.junk (heard_welcome ((e, rp), c))
unfolding heard_welcome
heard_welcome-failed e rp c h = rw h (elim (Bool-cases (is_silent rp.msg)) [
  | inl silent ↦ rw silent (fatal-Dialled e (some rp) c h)
  | inr told ↦ rw told (elim (Bool-cases (leb 4 rp.code_type)) [
    | inl late ↦ rw late (fatal_noted _ rp c _ refl (note_server-junk rp.msg c))
    | inr early ↦ rw early (fatal_noted e rp c _ h (note_server-junk rp.msg c))
  ])
])

heard_welcome-answered :
    (rp : Response) (c : Conn)
    → c.ctrl_open ≡ true
    → Dialled c.junk (heard_welcome ((k_no_err, rp), c))
unfolding heard_welcome
heard_welcome-answered rp c is_open = elim (Bool-cases (leb 4 rp.code_type)) [
  | inl late ↦ rw late (fatal_noted _ rp c _ refl (note_server-junk rp.msg c))
  | inr early ↦
      let d = record (note_server rp.msg c) { connected = true } in
      let (marked, stays) = done-stays rp d in
      rw early (
        through (done_with_response (some rp) d) marked
          (stays ∙ note_server-open rp.msg c ∙ is_open) refl)
]

shutdown_host-junk : (c : Conn) → (shutdown_host c).junk ≡ c.junk
unfolding shutdown_host
shutdown_host-junk c = ground arith

heard_welcome-lost :
    (e : ℤ) (rp : Response) (c d : Conn)
    → is_neg e ≡ true
    → d.junk ≡ c.junk
    → Dialled c.junk (heard_welcome ((e, rp), d))
heard_welcome-lost e rp c d h same = rw (← same) (heard_welcome-failed e rp d h)

heard_welcome-Dialled :
    (rp : Response) (c : Conn) (out : Option ((ℤ × Response) × Conn))
    → c.ctrl_open ≡ true
    → Ends rp c out
    → Dialled c.junk (elim out [ none ↦ none | some welcome ↦ heard_welcome welcome ])
heard_welcome-Dialled rp c out is_open (answered rp' k i small eq) =
    rw eq (heard_welcome-answered rp' (record c { allocs = k; input = i }) is_open)
heard_welcome-Dialled rp c out is_open (dropped e rp' k i negative eq) = rw eq (
    heard_welcome-lost e rp' c
      (record (shutdown_host (record c { allocs = k; input = i })) { err_no = e }) negative
      (shutdown_host-junk (record c { allocs = k; input = i })))
heard_welcome-Dialled rp c out is_open (garbled i eq) =
    rw eq (heard_welcome-failed k_err_invalid_reply_from_server rp _ refl)

await_welcome-Dialled :
    (c : Conn) → c.ctrl_open ≡ true → StackEnds c.junk → Dialled c.junk (await_welcome c)
unfolding await_welcome init_response
await_welcome-Dialled c is_open stack = elim (Bool-cases (c.malloc c.allocs)) [
  | inl fine ↦
      let d = record c { allocs = c.allocs + 1 } in
      rw fine (
        heard_welcome-Dialled empty_response d _ is_open (get_response-Ends empty_response d stack))
  | inr bad ↦
      let d = record c { allocs = c.allocs + 1; err_no = k_err_malloc_failed } in
      rw bad (fatal-Dialled k_err_malloc_failed none d refl)
]

connect_error-neg : (e : Errno) → is_neg (connect_error e) ≡ true
unfolding connect_error
connect_error-neg enetdown = refl
connect_error-neg enetunreach = refl
connect_error-neg econnaborted = refl
connect_error-neg etimedout = refl
connect_error-neg ehostdown = refl
connect_error-neg econnreset = refl
connect_error-neg econnrefused = refl
connect_error-neg other = refl

-- Where the stack has a NUL behind the fourth byte of GetResponse's line buffer, OpenControlConnection
-- never reads through NULL or out of bounds, whatever the resolver, the sockets
-- and the server do, and always ends: with kNoErr and an open connection that is marked as connected,
-- or with a negative error and, if no connection was open before, with none.
pub open_control_connection-Dialled :
    (a : Attempt) (c : Conn)
    → c.ctrl_open ≡ false
    → StackEnds c.junk
    → Dialled c.junk (open_control_connection a c)
unfolding open_control_connection connect_error
open_control_connection-Dialled (up lines) c closed stack =
    await_welcome-Dialled (record c { ctrl_open = true; input = lines }) refl stack
open_control_connection-Dialled (no_connection e) c closed stack =
    fatal-Dialled (connect_error e) none (record c { err_no = connect_error e })
      (connect_error-neg e)
open_control_connection-Dialled no_sock_name c closed stack =
    fatal-Dialled _ none (record c { err_no = k_err_get_sock_name }) refl
open_control_connection-Dialled no_readline c closed stack =
    fatal-Dialled _ none (record c { err_no = k_err_fdopen_w }) refl
open_control_connection-Dialled _ c closed stack = not_through _ _ refl closed refl refl

-- The lines of a reply behind its first one.
abbrev pub others_of : Reply → List Bytes
others_of r = elim r.more [ none ↦ [] | some (ms, t) ↦ texts_more ms t ]

-- What a welcome makes of the connection.
abbrev pub after_welcome : Reply → ℕ → Conn → Conn
after_welcome r n c = record c {
  ctrl_open = true;
  input = [];
  allocs = n;
  connected = true;
  server_type = recognize r.first (others_of r);
  last_result_str = take 127 r.first;
  last_result_num = pos (number_of r);
  last_result_ll = texts_of r;
}

noted :
    (r : Reply) (c : Conn)
    → note_server (texts_of r) c ≡ record c { server_type = recognize r.first (others_of r) }
unfolding note_server
noted r c = go r.more
  where
    go :
        (more : Option (List Middle × Bytes))
        → note_server (texts_of (record r { more = more })) c
          ≡ record c { server_type = recognize r.first (others_of (record r { more = more })) }
    go none = refl
    go (some (ms, t)) = refl

texts_of-heard : (r : Reply) → is_silent (texts_of r) ≡ false
texts_of-heard r = go r.more
  where
    go :
        (more : Option (List Middle × Bytes))
        → is_silent (texts_of (record r { more = more })) ≡ false
    go none = refl
    go (some (ms, t)) = refl

heard_welcome_lem :
    (r : Reply) (c : Conn)
    → r.d1 - b'0' < 4
    → heard_welcome ((k_no_err, read_as r empty_response), c)
      ≡ some (
        k_no_err,
        record c {
          connected = true;
          server_type = recognize r.first (others_of r);
          last_result_str = take 127 r.first;
          last_result_num = pos (number_of r);
          last_result_ll = texts_of r;
        },
      )
unfolding heard_welcome
heard_welcome_lem r c early =
    let fine : leb 4 (r.d1 - b'0') ≡ false = ground arith in
    rw fine (ap (λ d. some (k_no_err, d)) (rw (done_with_reply r, noted r c) refl))

early-stays : (r : Reply) → IsReply r → r.d1 - b'0' < 4 → number_of r ≢ 421
early-stays r well early e = omega (arith, well.digit1, well.digit2, well.digit3)

-- Where the server's welcome is a reply as RFC 959 frames it, of a class below 4, OpenControlConnection
-- reads exactly that reply, marks the connection as connected, and takes the server's type from the
-- reply's lines; the reply is the last result, and nothing else changes but the count of requests for
-- memory. Memory is at hand, and the data connection has not timed out.
pub open_control_connection_lem :
    (r : Reply) (c : Conn)
    → MemoryOk c
    → c.data_timed_out ≡ false
    → IsReply r
    → r.d1 - b'0' < 4
    → (n : ℕ) × (open_control_connection (up (wire_reply r)) c
        ≡ some (k_no_err, after_welcome r n c))
unfolding open_control_connection await_welcome init_response
open_control_connection_lem r c mem timely well early =
    let d = record c { ctrl_open = true; input = wire_reply r; allocs = c.allocs + 1 } in
    let (n, e) =
      get_response-reply r empty_response d [] mem well timely (rw append-nil refl)
        (early-stays r well early) in
    let heard : (elim (get_response empty_response d) [
      | none ↦ none
      | some out ↦ heard_welcome out
    ])
        ≡ some (k_no_err, after_welcome r n c) =
      rw e (heard_welcome_lem r (record d { allocs = n; input = [] }) early) in
    (n, rw (mem c.allocs) heard)
