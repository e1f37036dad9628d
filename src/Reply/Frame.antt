-- ===== src/Reply/Frame.antt =====
-- Replies as RFC 959 frames them, and what GetResponse makes of one.
use libncftp.Base.{
  ℕ, suc, ◌+◌, ◌-◌, ◌*◌, ◌≤◌, Bool, true, false, not, ◌||◌, List, [], ◌∷◌, ◌++◌, Option, none, some,
  Bytes, length, drop, set, cstr, strncmp_eq, is_digit, atoi_from, ◌==◌, if◌then◌else◌, ◌≡◌, ◌≢◌,
  refl, ap, ◌∙◌, arith, Lacks, All, cstr-append, c_string-Lacks, get_or-append, set-append,
  length-append, append_assoc, eq_self,
}
use libncftp.Conn.{Readline, line, Conn, shutdown_host}
use libncftp.Conn.Errors.{k_no_err, k_err_remote_host_closed_connection}
use libncftp.Reply.{
  Response, add_line, store, chop, got, first_line, later_line, later_lines, finish_reply,
  after_lines, read_reply, gone, receive, get_response,
}

abbrev pub IsDigit : ℕ → Type 0
IsDigit c = (b'0' ≤ c) × (c ≤ b'9')

-- A line between the first and the last of a reply. It may repeat the code and a dash.
pub data Middle : Type 0 where
  plain coded : Bytes → Middle

-- A reply: the three digits of its code and its text. `more` holds the lines behind the first one, of
-- which the last is separate.
pub record Reply : Type 0 where
  pub d1 : ℕ
  pub d2 : ℕ
  pub d3 : ℕ
  pub first : Bytes
  pub more : Option (List Middle × Bytes)

abbrev pub code_of : Reply → Bytes
code_of r = r.d1 ∷ r.d2 ∷ r.d3 ∷ []

-- The value of the code.
abbrev pub number_of : Reply → ℕ
number_of r = ((r.d1 - b'0') * 10 + (r.d2 - b'0')) * 10 + (r.d3 - b'0')

-- A line as SReadline gives it.
abbrev pub wire_line : Bytes → Readline
wire_line l = line (l ++ (b'\n' ∷ []))

abbrev pub wire_middle : Bytes → Middle → Readline
wire_middle code (plain t) = wire_line t
wire_middle code (coded t) = wire_line (code ++ (b'-' ∷ t))

abbrev pub text_of : Middle → Bytes
text_of (plain t) = t
text_of (coded t) = t

abbrev pub wire_more : Bytes → List Middle → Bytes → List Readline
wire_more code [] t = wire_line (code ++ (b' ' ∷ t)) ∷ []
wire_more code (m ∷ ms) t = wire_middle code m ∷ wire_more code ms t

abbrev pub texts_more : List Middle → Bytes → List Bytes
texts_more [] t = t ∷ []
texts_more (m ∷ ms) t = text_of m ∷ texts_more ms t

-- The lines that carry the reply, by RFC 959: code and space, or code and dash up to the last line.
abbrev pub wire_reply : Reply → List Readline
wire_reply r = elim r.more [
  | none ↦ wire_line (code_of r ++ (b' ' ∷ r.first)) ∷ []
  | some (ms, t) ↦ wire_line (code_of r ++ (b'-' ∷ r.first)) ∷ wire_more (code_of r) ms t
]

abbrev pub texts_of : Reply → List Bytes
texts_of r = elim r.more [ none ↦ r.first ∷ [] | some (ms, t) ↦ r.first ∷ texts_more ms t ]

-- No NUL in a line, and a plain line does not begin with the code.
abbrev pub GoodMiddle : Bytes → Middle → Type 0
GoodMiddle code (plain t) = Lacks 0 t × (strncmp_eq 3 code t ≡ false)
GoodMiddle code (coded t) = Lacks 0 t

abbrev pub GoodMore : Bytes → Option (List Middle × Bytes) → Type 0
GoodMore code none = Unit
GoodMore code (some (ms, t)) = All (GoodMiddle code) ms × Lacks 0 t

pub record IsReply (r : Reply) : Type 0 where
  pub digit1 : IsDigit r.d1
  pub digit2 : IsDigit r.d2
  pub digit3 : IsDigit r.d3
  pub first_text : Lacks 0 r.first
  pub more_text : GoodMore (code_of r) r.more

-- Every request for memory is met.
abbrev pub MemoryOk : Conn → Type 0
MemoryOk c = (n : ℕ) → c.malloc n ≡ true

pub add_line_lem :
    (msg : List Bytes) (t : Bytes) (c : Conn)
    → MemoryOk c
    → add_line msg t c ≡ (msg ++ (t ∷ []), record c { allocs = c.allocs + 2 })
unfolding add_line
add_line_lem msg t c mem = rw (mem c.allocs, mem (c.allocs + 1))

-- A stored line without its newline: the text, its NUL, and something behind it.
pub chop-store :
    (l str : Bytes)
    → (rest : Bytes) × (chop (length (l ++ (b'\n' ∷ []))) (store (l ++ (b'\n' ∷ [])) str)
        ≡ l ++ (0 ∷ rest))
chop-store l str =
    let more : Bytes = 0 ∷ drop (suc (length (l ++ (b'\n' ∷ [])))) str in
    let size : length (l ++ (b'\n' ∷ [])) - 1 ≡ length l =
      omega (arith, length-append l (b'\n' ∷ [])) in
    (more, rw (size, append_assoc, get_or-append l more b'\n' 0, set-append l more b'\n' 0))

module _ (code : Bytes) (str : Bytes) (rest : List Readline) (msg : List Bytes) (c : Conn) where
  -- One round of `while (continuation)`, on a line with a newline.
  later_lines_step :
      (l : Bytes)
      → later_lines code str (wire_line l ∷ rest) msg c ≡ (
          let str' = chop (length (l ++ (b'\n' ∷ []))) (store (l ++ (b'\n' ∷ [])) str) in
          elim (later_line code str') [
            | none ↦ none
            | some (text, last) ↦
                let (msg', c') = add_line msg text c in
                if last then some ((none, msg', rest), c') else later_lines code str' rest msg' c'
          ])
  unfolding later_lines
  later_lines_step [] = refl
  later_lines_step (b ∷ l) = refl

IsDigit-is_digit : (d : ℕ) → IsDigit d → is_digit d ≡ true
IsDigit-is_digit d h = ground arith

module _ (d1 d2 d3 : ℕ) (p : IsDigit d1) (q : IsDigit d2) (s : IsDigit d3) where
  digits-Lacks : (t : Bytes) → Lacks 0 t → Lacks 0 (d1 ∷ d2 ∷ d3 ∷ t)
  digits-Lacks t h = (omega arith, (omega arith, (omega arith, h)))

  later_line_plain :
      (t r : Bytes)
      → Lacks 0 t
      → strncmp_eq 3 (d1 ∷ d2 ∷ d3 ∷ []) t ≡ false
      → later_line (d1 ∷ d2 ∷ d3 ∷ []) (t ++ (0 ∷ r)) ≡ some (t, false)
  unfolding later_line
  later_line_plain t r h e = rw (cstr-append t r h, e)

  later_line_code :
      (sep : ℕ) (t r : Bytes)
      → Lacks 0 t
      → sep ≢ 0
      → later_line (d1 ∷ d2 ∷ d3 ∷ []) (d1 ∷ d2 ∷ d3 ∷ sep ∷ (t ++ (0 ∷ r)))
        ≡ some (t, not (sep == b'-'))
  unfolding later_line strncmp_eq
  later_line_code sep t r h z = rw (
    cstr-append (d1 ∷ d2 ∷ d3 ∷ sep ∷ t) r (digits-Lacks (sep ∷ t) (z, h)),
    c_string-Lacks t r h,
    eq_self d1,
    eq_self d2,
    eq_self d3,
  )

  -- A middle line adds its text, and the loop goes on.
  later_lines_middle :
      (m : Middle) (str : Bytes) (rest : List Readline) (msg : List Bytes) (c : Conn)
      → MemoryOk c
      → GoodMiddle (d1 ∷ d2 ∷ d3 ∷ []) m
      → (str' : Bytes) × (later_lines
            (d1 ∷ d2 ∷ d3 ∷ [])
            str
            (wire_middle (d1 ∷ d2 ∷ d3 ∷ []) m ∷ rest)
            msg
            c
          ≡ later_lines
              (d1 ∷ d2 ∷ d3 ∷ [])
              str'
              rest
              (msg ++ (text_of m ∷ []))
              (record c { allocs = c.allocs + 2 }))
  later_lines_middle (plain t) str rest msg c mem (h, e) =
      let (r, chopped) = chop-store t str in
      (
        t ++ (0 ∷ r),
        later_lines_step _ str rest msg c t
            ∙ rw (chopped, later_line_plain t r h e, add_line_lem msg t c mem, chopped),
      )
  later_lines_middle (coded t) str rest msg c mem h =
      let (r, chopped) = chop-store (d1 ∷ d2 ∷ d3 ∷ b'-' ∷ t) str in
      (
        d1 ∷ d2 ∷ d3 ∷ b'-' ∷ (t ++ (0 ∷ r)),
        later_lines_step _ str rest msg c (d1 ∷ d2 ∷ d3 ∷ b'-' ∷ t)
            ∙ rw (
              chopped,
              later_line_code b'-' t r h (omega arith),
              add_line_lem msg t c mem,
              chopped,
            ),
      )

  -- The loop reads up to the last line of the reply, and no further.
  later_lines_reply :
      (ms : List Middle) (t str : Bytes) (rest : List Readline) (msg : List Bytes) (c : Conn)
      → MemoryOk c
      → All (GoodMiddle (d1 ∷ d2 ∷ d3 ∷ [])) ms
      → Lacks 0 t
      → (n : ℕ) × (later_lines
            (d1 ∷ d2 ∷ d3 ∷ [])
            str
            (wire_more (d1 ∷ d2 ∷ d3 ∷ []) ms t ++ rest)
            msg
            c
          ≡ some ((none, msg ++ texts_more ms t, rest), record c { allocs = n }))
  later_lines_reply [] t str rest msg c mem _ h =
      let (r, chopped) = chop-store (d1 ∷ d2 ∷ d3 ∷ b' ' ∷ t) str in
      (
        c.allocs + 2,
        later_lines_step _ str rest msg c (d1 ∷ d2 ∷ d3 ∷ b' ' ∷ t)
            ∙ rw (chopped, later_line_code b' ' t r h (omega arith), add_line_lem msg t c mem),
      )
  later_lines_reply (m ∷ ms) t str rest msg c mem (g, gs) h =
      let (str', round) =
        later_lines_middle m str (wire_more (d1 ∷ d2 ∷ d3 ∷ []) ms t ++ rest) msg c mem g in
      let (n, others) =
        later_lines_reply ms t str' rest (msg ++ (text_of m ∷ []))
          (record c { allocs = c.allocs + 2 }) mem gs h in
      (n, round ∙ others ∙ rw append_assoc)

  atoi_code : atoi_from 0 (d1 ∷ d2 ∷ d3 ∷ []) ≡ ((d1 - b'0') * 10 + (d2 - b'0')) * 10 + (d3 - b'0')
  unfolding atoi_from
  atoi_code = ground arith

  first_line_reply :
      (gone : List Readline → Bool) (sep : ℕ) (t str : Bytes) (rest : List Readline)
      → gone (wire_line (d1 ∷ d2 ∷ d3 ∷ sep ∷ t) ∷ rest) ≡ false
      → (r : Bytes) × (first_line gone str (wire_line (d1 ∷ d2 ∷ d3 ∷ sep ∷ t) ∷ rest)
          ≡ got (d1 ∷ d2 ∷ d3 ∷ sep ∷ (t ++ (0 ∷ r))) rest)
  unfolding first_line
  first_line_reply gone sep t str rest g =
      let (r, chopped) = chop-store (d1 ∷ d2 ∷ d3 ∷ sep ∷ t) str in
      let filled : (d1 == b'\n' || d1 == 0) ≡ false = ground arith in (r, rw (g, filled, chopped))

  -- The code and the text of the first line.
  read_code :
      (sep : ℕ) (r : Bytes)
      → atoi_from 0 (cstr (set (d1 ∷ d2 ∷ d3 ∷ sep ∷ r) 3 0))
        ≡ ((d1 - b'0') * 10 + (d2 - b'0')) * 10 + (d3 - b'0')
  read_code sep r = rw (cstr-append (d1 ∷ d2 ∷ d3 ∷ []) r (digits-Lacks [] tt)) atoi_code

  read_reply_single :
      (rp : Response) (t r : Bytes) (c : Conn)
      → MemoryOk c
      → Lacks 0 t
      → read_reply rp (d1 ∷ d2 ∷ d3 ∷ b' ' ∷ (t ++ (0 ∷ r))) c
        ≡ some (
            finish_reply
              (record rp {
                code_type = d1 - b'0';
                code = ((d1 - b'0') * 10 + (d2 - b'0')) * 10 + (d3 - b'0');
                msg = rp.msg ++ (t ∷ []);
              })
              (record c { allocs = c.allocs + 2 }))
  unfolding read_reply
  read_reply_single rp t r c mem h =
      rw (
        c_string-Lacks t r h,
        read_reply,
        add_line_lem rp.msg t c mem,
        read_code b' ' (t ++ (0 ∷ r)),
      )

  read_reply_multi :
      (rp : Response) (t r : Bytes) (ms : List Middle) (end : Bytes) (rest : List Readline)
      (c : Conn)
      → MemoryOk c
      → Lacks 0 t
      → All (GoodMiddle (d1 ∷ d2 ∷ d3 ∷ [])) ms
      → Lacks 0 end
      → (n : ℕ) × (read_reply rp
            (d1 ∷ d2 ∷ d3 ∷ b'-' ∷ (t ++ (0 ∷ r)))
            (record c { input = wire_more (d1 ∷ d2 ∷ d3 ∷ []) ms end ++ rest })
          ≡ some (
              finish_reply
                (record rp {
                  code_type = d1 - b'0';
                  code = ((d1 - b'0') * 10 + (d2 - b'0')) * 10 + (d3 - b'0');
                  msg = (rp.msg ++ (t ∷ [])) ++ texts_more ms end;
                })
                (record c { allocs = n; input = rest })))
  unfolding read_reply
  read_reply_multi rp t r ms end rest c mem h gs he =
      let (n, loop) =
        later_lines_reply ms end (d1 ∷ d2 ∷ d3 ∷ 0 ∷ (t ++ (0 ∷ r))) rest (rp.msg ++ (t ∷ []))
          (record c { allocs = c.allocs + 2; input = wire_more (d1 ∷ d2 ∷ d3 ∷ []) ms end ++ rest })
          mem gs he in
      let code : cstr (set (d1 ∷ d2 ∷ d3 ∷ b'-' ∷ (t ++ (0 ∷ r))) 3 0) ≡ d1 ∷ d2 ∷ d3 ∷ [] =
        cstr-append (d1 ∷ d2 ∷ d3 ∷ []) (t ++ (0 ∷ r)) (digits-Lacks [] tt) in
      let heard = record c {
        allocs = c.allocs + 2;
        input = wire_more (d1 ∷ d2 ∷ d3 ∷ []) ms end ++ rest;
      } in
      let looped : later_lines (cstr (set (d1 ∷ d2 ∷ d3 ∷ b'-' ∷ (t ++ (0 ∷ r))) 3 0))
            (d1 ∷ d2 ∷ d3 ∷ 0 ∷ (t ++ (0 ∷ r))) heard.input (rp.msg ++ (t ∷ [])) heard
          ≡ some (
            (none, (rp.msg ++ (t ∷ [])) ++ texts_more ms end, rest),
            record heard { allocs = n },
          ) =
        rw code loop in
      (
        n,
        rw
            (
              c_string-Lacks t r h,
              read_reply,
              add_line_lem rp.msg t
                  (record c { input = wire_more (d1 ∷ d2 ∷ d3 ∷ []) ms end ++ rest }) mem,
              looped,
              code,
              atoi_code,
            )
            (unfold after_lines in refl),
      )

-- The result of GetResponse on a whole reply.
abbrev pub read_as : Reply → Response → Response
read_as r rp = record rp { code_type = r.d1 - b'0'; code = number_of r; msg = rp.msg ++ texts_of r }

receive_reply :
    (d1 d2 d3 : ℕ) (t : Bytes) (more : Option (List Middle × Bytes)) (rp : Response) (c : Conn)
    (rest : List Readline)
    → MemoryOk c
    → IsReply (record { d1 = d1; d2 = d2; d3 = d3; first = t; more = more })
    → c.data_timed_out ≡ false
    → c.input ≡ wire_reply (record { d1 = d1; d2 = d2; d3 = d3; first = t; more = more }) ++ rest
    → (n : ℕ) × (get_response rp c
        ≡ some (
            finish_reply
              (read_as (record { d1 = d1; d2 = d2; d3 = d3; first = t; more = more }) rp)
              (record c { allocs = n; input = rest })))
unfolding get_response receive
receive_reply d1 d2 d3 t none rp c rest mem w timely queued =
    let (r, e) =
      first_line_reply d1 d2 d3 w.digit1 w.digit2 w.digit3 (gone c) b' ' t c.junk rest
        (rw timely) in
    (
      c.allocs + 2,
      ap (receive rp c) (ap (first_line (gone c) c.junk) queued ∙ e)
          ∙ rw (IsDigit-is_digit d1 w.digit1) (
              read_reply_single d1 d2 d3 w.digit1 w.digit2 w.digit3 rp t r
                (record c { input = rest }) mem w.first_text),
    )
receive_reply d1 d2 d3 t (some (ms, end)) rp c rest mem w timely queued =
    let after = wire_more (d1 ∷ d2 ∷ d3 ∷ []) ms end ++ rest in
    let (r, e) =
      first_line_reply d1 d2 d3 w.digit1 w.digit2 w.digit3 (gone c) b'-' t c.junk after
        (rw timely) in
    let (n, body) =
      read_reply_multi d1 d2 d3 w.digit1 w.digit2 w.digit3 rp t r ms end rest c mem w.first_text
        w.more_text.0 w.more_text.1 in
    (
      n,
      ap (receive rp c) (ap (first_line (gone c) c.junk) queued ∙ e)
          ∙ rw (IsDigit-is_digit d1 w.digit1, body, append_assoc),
    )

module _ (r : Reply) (rp : Response) (c : Conn) (rest : List Readline) (mem : MemoryOk c)
    (well : IsReply r) (timely : c.data_timed_out ≡ false)
    (queued : c.input ≡ wire_reply r ++ rest) where
  -- Where the next unread lines are a reply as RFC 959 frames it, with a code other than 421, memory
  -- is at hand and the data connection has not timed out: GetResponse returns kNoErr; the response
  -- has the code, its first digit, and the reply's lines without code and separator; and exactly the
  -- reply's lines are read. Nothing else of the connection changes but the count of requests for
  -- memory.
  pub get_response-reply :
      number_of r ≢ 421
      → (n : ℕ) × (get_response rp c
          ≡ some ((k_no_err, read_as r rp), record c { allocs = n; input = rest }))
  get_response-reply ne =
      let (n, e) = receive_reply r.d1 r.d2 r.d3 r.first r.more rp c rest mem well timely queued in
      (n, e ∙ (unfold finish_reply in ground arith))

  -- Under the same conditions, but with the code 421, GetResponse returns
  -- kErrRemoteHostClosedConnection, stores it as `errNo`, and closes the control connection.
  pub get_response_421 :
      number_of r ≡ 421
      → (n : ℕ) × (get_response rp c
          ≡ some (
            (k_err_remote_host_closed_connection, read_as r rp),
            record (shutdown_host (record c { allocs = n; input = rest })) {
              err_no = k_err_remote_host_closed_connection;
            },
          ))
  get_response_421 is_421 =
      let (n, e) = receive_reply r.d1 r.d2 r.d3 r.first r.more rp c rest mem well timely queued in
      (n, e ∙ (unfold finish_reply in ground arith))
