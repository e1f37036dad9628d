-- ===== src/Reply/Outcome.antt =====
-- All the ways in which GetResponse can end, whatever the server sends.
use libncftp.Base.{
  ℕ, suc, ◌+◌, ◌++◌, ◌-◌, ◌≤◌, Bool, true, false, List, [], ◌∷◌, Option, none, some, Bytes, set,
  cstr, c_string, zero, not, strncmp_eq, drop, get_or, is_digit, if◌then◌else◌, ℤ, is_neg, ◌≡◌,
  refl, inl, inr, arith, Bool-cases, ◌==◌, ◌||◌, length, atoi_from,
}
use libncftp.Conn.{Readline, line, eof, timeout, failed, Conn, shutdown_host}
use libncftp.Conn.Errors.{k_no_err, k_err_invalid_reply_from_server}
use libncftp.Reply.{
  Response, add_line, Got, lost, got, no_line, first_line, later_line, later_lines, after_lines,
  finish_reply, read_reply, receive, gone, lose, get_response, store, chop, Later,
}

-- Behind its fourth byte the line buffer has a NUL, as it stands before GetResponse stores in it.
abbrev pub StackEnds : Bytes → Type 0
StackEnds str = (t : Bytes) × (c_string (drop 4 str) ≡ some t)

-- GetResponse ends in one of three ways. On `answered` only the unread input and the count of
-- requests for memory change. On `dropped` the control connection has been shut down. On `garbled`
-- the line does not start with a digit, and the connection stays open.
pub data Ends (rp : Response) (c : Conn) (out : Option ((ℤ × Response) × Conn)) : Type 0 where
  answered :
      (rp' : Response) (k : ℕ) (i : List Readline)
      → rp'.code_type ≤ 9
      → out ≡ some ((k_no_err, rp'), record c { allocs = k; input = i })
      → Ends rp c out
  dropped :
      (e : ℤ) (rp' : Response) (k : ℕ) (i : List Readline)
      → is_neg e ≡ true
      → out
        ≡ some
            ((e, rp'), record (shutdown_host (record c { allocs = k; input = i })) { err_no = e })
      → Ends rp c out
  garbled :
      (i : List Readline)
      → out
        ≡ some (
          (k_err_invalid_reply_from_server, rp),
          record c { input = i; err_no = k_err_invalid_reply_from_server },
        )
      → Ends rp c out

-- A NUL stored at a place, or a place that is overwritten by a NUL, leaves a NUL behind.
c_string-nul : (s rest : Bytes) → (t : Bytes) × (c_string (s ++ (0 ∷ rest)) ≡ some t)
unfolding c_string
c_string-nul [] rest = ([], refl)
c_string-nul (x ∷ s) rest =
    let (t, e) = c_string-nul s rest in
    elim (Bool-cases (x == 0)) [ inl here ↦ ([], rw here) | inr other ↦ (x ∷ t, rw (other, e)) ]

c_string-tail :
    (x : ℕ) (s t : Bytes)
    → (x == 0) ≡ false
    → c_string (x ∷ s) ≡ some t
    → (u : Bytes) × (c_string s ≡ some u)
unfolding c_string
c_string-tail x s t other e = go (c_string s) refl (rw other at e)
  where
    go :
        (o : Option Bytes)
        → c_string s ≡ o
        → (elim o [ none ↦ none | some u ↦ some (x ∷ u) ]) ≡ some t
        → (u : Bytes) × (c_string s ≡ some u)
    go none same h = absurd (cc)
    go (some u) same h = (u, same)

c_string-set :
    (s t : Bytes) (i : ℕ) → c_string s ≡ some t → (t' : Bytes) × (c_string (set s i 0) ≡ some t')
unfolding c_string
c_string-set [] t i e = (t, e)
c_string-set (x ∷ s) t zero e = ([], refl)
c_string-set (x ∷ s) t (suc i) e = elim (Bool-cases (x == 0)) [
  | inl here ↦ ([], rw here)
  | inr other ↦
      let (u, same) = c_string-tail x s t other e in
      let (t', e') = c_string-set s u i same in (x ∷ t', rw (other, e'))
]

StackEnds-set : (str : Bytes) (i : ℕ) → StackEnds str → StackEnds (set str i 0)
unfolding c_string
StackEnds-set (x0 ∷ x1 ∷ x2 ∷ x3 ∷ s) zero h = h
StackEnds-set (x0 ∷ x1 ∷ x2 ∷ x3 ∷ s) (suc zero) h = h
StackEnds-set (x0 ∷ x1 ∷ x2 ∷ x3 ∷ s) (suc (suc zero)) h = h
StackEnds-set (x0 ∷ x1 ∷ x2 ∷ x3 ∷ s) (suc (suc (suc zero))) h = h
StackEnds-set (x0 ∷ x1 ∷ x2 ∷ x3 ∷ s) (suc (suc (suc (suc i)))) (t, e) = c_string-set s t i e
StackEnds-set _ i (t, e) = absurd (cc)

StackEnds-store : (l str : Bytes) → StackEnds str → StackEnds (store l str)
unfolding c_string
StackEnds-store [] (x0 ∷ str) h = h
StackEnds-store (a ∷ []) (x0 ∷ x1 ∷ str) h = h
StackEnds-store (a ∷ b ∷ []) (x0 ∷ x1 ∷ x2 ∷ str) h = h
StackEnds-store (a ∷ b ∷ c ∷ []) (x0 ∷ x1 ∷ x2 ∷ x3 ∷ str) h = h
StackEnds-store (a ∷ b ∷ c ∷ d ∷ l) str h =
    c_string-nul l (drop (suc (suc (suc (suc (suc (length l)))))) str)
StackEnds-store _ _ (t, e) = absurd (cc)

StackEnds-chop : (n : ℕ) (str : Bytes) → StackEnds str → StackEnds (chop n str)
StackEnds-chop n str h = elim (Bool-cases (get_or str (n - 1) 0 == b'\n')) [
  | inl e ↦ rw e (StackEnds-set str (n - 1) h)
  | inr e ↦ rw e h
]

StackEnds-stored :
    (b : ℕ) (l str : Bytes) → StackEnds str → StackEnds (chop (suc (length l)) (store (b ∷ l) str))
StackEnds-stored b l str h =
    StackEnds-chop (suc (length l)) (store (b ∷ l) str) (StackEnds-store (b ∷ l) str h)

-- A later line is read within the buffer.
later_line-runs :
    (code str : Bytes) → StackEnds str → (r : Bytes × Bool) × (later_line code str ≡ some r)
unfolding later_line
later_line-runs code str (t, e) = elim (Bool-cases (strncmp_eq 3 code (cstr str))) [
  | inl same ↦ ((t, not (get_or str 3 0 == b'-')), rw (same, e))
  | inr other ↦ ((cstr str, false), rw other)
]

-- An error is negative, and the buffer of a line ends.
abbrev NegLost : Got → Type 0
NegLost (lost e at_eof rest) = is_neg e ≡ true
NegLost (got str rest) = StackEnds str

no_line-NegLost : (r : Readline) (rest : List Readline) → NegLost (no_line r rest)
unfolding no_line
no_line-NegLost timeout rest = refl
no_line-NegLost failed rest = refl
no_line-NegLost _ rest = refl

NegLost-if : (b : Bool) (x y : Got) → NegLost x → NegLost y → NegLost (if b then x else y)
NegLost-if true x y hx hy = hx
NegLost-if false x y hx hy = hy

first_line-NegLost :
    (no_wait : List Readline → Bool) (str : Bytes) (input : List Readline)
    → StackEnds str
    → NegLost (first_line no_wait str input)
unfolding first_line
first_line-NegLost no_wait str [] ends = NegLost-if (no_wait []) _ _ refl (no_line-NegLost eof [])
first_line-NegLost no_wait str (line (b ∷ l) ∷ rest) ends =
    NegLost-if (no_wait (line (b ∷ l) ∷ rest)) _ _ refl (
      NegLost-if (b == b'\n' || b == 0) _ (got (chop (suc (length l)) (store (b ∷ l) str)) rest)
        (first_line-NegLost no_wait (store (b ∷ l) str) rest (StackEnds-store (b ∷ l) str ends))
        (StackEnds-stored b l str ends))
first_line-NegLost no_wait str (r ∷ rest) ends =
    NegLost-if (no_wait (r ∷ rest)) _ _ refl (no_line-NegLost r rest)

add_line-allocs :
    (msg : List Bytes) (t : Bytes) (c : Conn)
    → (k : ℕ) × ((add_line msg t c).1 ≡ record c { allocs = k })
unfolding add_line
add_line-allocs msg t c = elim (Bool-cases (c.malloc c.allocs)) [
  | inl e ↦ (c.allocs + 2, rw e)
  | inr e ↦ (c.allocs + 1, rw e)
]

abbrev NegError : Option (ℤ × Bool) → Type 0
NegError none = Unit
NegError (some (e, at_eof)) = is_neg e ≡ true

-- The second loop changes nothing but the count of requests for memory; its errors are negative.
abbrev LaterEnds : Conn → Option Later → Type 0
LaterEnds c none = ⊥
LaterEnds c (some ((error, msg, rest), c')) =
    NegError error × ((k : ℕ) × (c' ≡ record c { allocs = k }))

LaterEnds-round :
    (last : Bool) (code str : Bytes) (rest : List Readline) (c : Conn) (added : List Bytes × Conn)
    → ((k : ℕ) × (added.1 ≡ record c { allocs = k }))
    → ((msg : List Bytes) (k : ℕ)
        → LaterEnds
            (record c { allocs = k })
            (later_lines code str rest msg (record c { allocs = k })))
    → LaterEnds c (
        if last
        then some ((none, added.0, rest), added.1)
        else later_lines code str rest added.0 added.1)
LaterEnds-round true code str rest c (msg, c') (k, e) ih = (tt, (k, e))
LaterEnds-round false code str rest c (msg, c') (k, e) ih =
    go (later_lines code str rest msg c') (rw e (ih msg k))
  where
    go : (out : Option Later) → LaterEnds (record c { allocs = k }) out → LaterEnds c out
    go none h = h
    go (some ((error, msg', rest'), d)) h = h

later_lines-LaterEnds :
    (code str : Bytes) (input : List Readline) (msg : List Bytes) (c : Conn)
    → StackEnds str
    → LaterEnds c (later_lines code str input msg c)
unfolding later_lines
later_lines-LaterEnds code str [] msg c ends = (refl, (c.allocs, refl))
later_lines-LaterEnds code str (line (b ∷ l) ∷ rest) msg c ends =
    let str' = chop (suc (length l)) (store (b ∷ l) str) in
    let ends' = StackEnds-stored b l str ends in
    let ((text, last), e) = later_line-runs code str' ends' in
    rw (e, later_lines)
      (LaterEnds-round last code str' rest c (add_line msg text c) (add_line-allocs msg text c)
        (λ msg' k. later_lines-LaterEnds code str' rest msg' (record c { allocs = k }) ends'))
later_lines-LaterEnds code str (timeout ∷ rest) msg c ends = (refl, (c.allocs, refl))
later_lines-LaterEnds code str (failed ∷ rest) msg c ends = (refl, (c.allocs, refl))
later_lines-LaterEnds code str (_ ∷ rest) msg c ends = (refl, (c.allocs, refl))

module _ (rp : Response) (c : Conn) where
  lose-Ends :
      (e : ℤ) (at_eof : Bool) (rp' : Response) (k : ℕ) (i : List Readline)
      → is_neg e ≡ true
      → Ends rp c (some (lose e at_eof rp' (record c { allocs = k; input = i })))
  lose-Ends e at_eof rp' k i h = dropped e _ k i h refl

  finish_reply-Ends :
      (rp' : Response) (k : ℕ) (i : List Readline)
      → rp'.code_type ≤ 9
      → Ends rp c (some (finish_reply rp' (record c { allocs = k; input = i })))
  unfolding finish_reply
  finish_reply-Ends rp' k i h = elim (Bool-cases (rp'.code == 421)) [
    | inl e ↦ rw e (lose-Ends _ false rp' k i refl)
    | inr e ↦ rw e (answered rp' k i h refl)
  ]

  after_lines-Ends :
      (rp' : Response) (k : ℕ) (i : List Readline) (out : Option Later)
      → rp'.code_type ≤ 9
      → LaterEnds (record c { allocs = k; input = i }) out
      → Ends rp c (elim out [ none ↦ none | some later ↦ some (after_lines rp' later) ])
  unfolding after_lines
  after_lines-Ends rp' k i none h ends = absurd ends
  after_lines-Ends rp' k i (some ((none, msg, rest), c')) h (_, (j, same)) =
      rw same (finish_reply-Ends (record rp' { msg = msg }) j rest h)
  after_lines-Ends rp' k i (some ((some (e, at_eof), msg, rest), c')) h (neg_error, (j, same)) =
      rw same (lose-Ends e at_eof (record rp' { msg = msg }) j rest neg_error)

  read_reply-Ends :
      (str : Bytes) (i : List Readline)
      → is_digit (get_or str 0 0) ≡ true
      → StackEnds str
      → Ends rp c (read_reply rp str (record c { input = i }))
  unfolding read_reply
  read_reply-Ends str i d (text, whole_text) =
      let (k, added) = add_line-allocs rp.msg text (record c { input = i }) in
      let heard = record rp {
        msg = (add_line rp.msg text (record c { input = i })).0;
        code_type = get_or str 0 0 - b'0';
        code = atoi_from 0 (cstr (set str 3 0));
      } in
      let small : get_or str 0 0 - b'0' ≤ 9 = ground arith in
      elim (Bool-cases (get_or str 3 0 == b'-')) [
        | inl e ↦
            rw (whole_text, read_reply, e, added)
              (after_lines-Ends heard k i _ small (
                later_lines-LaterEnds (cstr (set str 3 0)) (set str 3 0) i
                  (add_line rp.msg text (record c { input = i })).0
                  (record c { input = i; allocs = k }) (StackEnds-set str 3 (text, whole_text))))
        | inr e ↦ rw (whole_text, read_reply, e, added) (finish_reply-Ends heard k i small)
      ]

  receive-Ends : (out : Got) → NegLost out → Ends rp c (receive rp c out)
  unfolding receive
  receive-Ends (lost e at_eof rest) h = dropped e _ c.allocs rest h refl
  receive-Ends (got str rest) h = elim (Bool-cases (is_digit (get_or str 0 0))) [
    | inl d ↦ rw d (read_reply-Ends str rest d h)
    | inr d ↦ rw d (garbled rest refl)
  ]

-- Whatever the server sends and whether or not memory is at hand, where the stack that the line
-- buffer comes to stand on has a NUL behind the buffer's fourth byte: GetResponse reads within the
-- buffer, and ends in one of the three ways of `Ends`: kNoErr with a first digit of at most 9 and the connection as it was but for
-- the input that was read; a negative result stored as `errNo` after the control connection has been
-- shut down; or kErrInvalidReplyFromServer, stored as `errNo`, with the connection left open.
pub get_response-Ends :
    (rp : Response) (c : Conn) → StackEnds c.junk → Ends rp c (get_response rp c)
unfolding get_response
get_response-Ends rp c ends =
    receive-Ends rp c (first_line (gone c) c.junk c.input)
      (first_line-NegLost (gone c) c.junk c.input ends)
