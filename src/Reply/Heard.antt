-- ===== src/Reply/Heard.antt =====
-- A reply that GetResponse accepts has a line, and was read from the input.
use libncftp.Base.{
  ℕ, suc, ◌+◌, ◌-◌, ◌<◌, ◌≤◌, Bool, true, false, List, [], ◌∷◌, Option, none, some, Bytes, set,
  cstr, c_string, drop, get_or, is_digit, if◌then◌else◌, ℤ, is_neg, ◌≡◌, refl, inl, inr, arith,
  Bool-cases, ◌==◌, ◌||◌, length, length-append, atoi_from,
}
use libncftp.Conn.{Readline, line, eof, timeout, failed, Conn}
use libncftp.Reply.{
  Response, add_line, Got, lost, got, no_line, first_line, later_line, later_lines, after_lines,
  finish_reply, read_reply, receive, gone, get_response, store, chop, Later,
}
use libncftp.Reply.Frame.{MemoryOk, add_line_lem}

-- If the result is no error, fewer than `n` lines are unread, and the response has a line.
abbrev pub Heard : ℕ → Option ((ℤ × Response) × Conn) → Type 0
Heard n none = Unit
Heard n (some ((e, rp), c)) = is_neg e ≡ false → (length c.input < n) × (1 ≤ length rp.msg)

abbrev Shorter : ℕ → Got → Type 0
Shorter n (lost e at_eof rest) = is_neg e ≡ true
Shorter n (got str rest) = length rest < n

no_line-Shorter : (n : ℕ) (r : Readline) (rest : List Readline) → Shorter n (no_line r rest)
unfolding no_line
no_line-Shorter n timeout rest = refl
no_line-Shorter n failed rest = refl
no_line-Shorter n _ rest = refl

Shorter-if :
    (n : ℕ) (b : Bool) (x y : Got) → Shorter n x → Shorter n y → Shorter n (if b then x else y)
Shorter-if n true x y hx hy = hx
Shorter-if n false x y hx hy = hy

Shorter-suc : (n : ℕ) (g : Got) → Shorter n g → Shorter (suc n) g
Shorter-suc n (lost e at_eof rest) h = h
Shorter-suc n (got str rest) h = omega arith

first_line-Shorter :
    (no_wait : List Readline → Bool) (str : Bytes) (input : List Readline)
    → Shorter (length input) (first_line no_wait str input)
unfolding first_line
first_line-Shorter no_wait str [] = Shorter-if 0 (no_wait []) _ _ refl (no_line-Shorter 0 eof [])
first_line-Shorter no_wait str (line (b ∷ l) ∷ rest) =
    let n = suc (length rest) in
    Shorter-if n (no_wait (line (b ∷ l) ∷ rest)) _ _ refl (
      Shorter-if n (b == b'\n' || b == 0) _ (got (chop (suc (length l)) (store (b ∷ l) str)) rest)
        (Shorter-suc (length rest) _ (first_line-Shorter no_wait (store (b ∷ l) str) rest))
        (omega arith))
first_line-Shorter no_wait str (r ∷ rest) =
    Shorter-if (suc (length rest)) (no_wait (r ∷ rest)) _ _ refl
      (no_line-Shorter (suc (length rest)) r rest)

-- The second loop reads on and only adds lines.
abbrev LaterHeard : ℕ → ℕ → Option Later → Type 0
LaterHeard n k none = Unit
LaterHeard n k (some ((some (e, at_eof), msg, rest), c)) = is_neg e ≡ true
LaterHeard n k (some ((none, msg, rest), c)) = (length rest ≤ n) × (k ≤ length msg)

LaterHeard-weaken :
    (n n' k k' : ℕ) (out : Option Later)
    → n ≤ n'
    → k' ≤ k
    → LaterHeard n k out
    → LaterHeard n' k' out
LaterHeard-weaken n n' k k' none hn hk h = tt
LaterHeard-weaken n n' k k' (some ((some (e, at_eof), msg, rest), c)) hn hk h = h
LaterHeard-weaken n n' k k' (some ((none, msg, rest), c)) hn hk (h1, h2) =
    (omega arith, omega arith)

LaterHeard-if :
    (b : Bool) (n k : ℕ) (x y : Option Later)
    → LaterHeard n k x
    → LaterHeard n k y
    → LaterHeard n k (if b then x else y)
LaterHeard-if true n k x y hx hy = hx
LaterHeard-if false n k x y hx hy = hy

add_line-length :
    (msg : List Bytes) (t : Bytes) (c : Conn) → length msg ≤ length (add_line msg t c).0
unfolding add_line
add_line-length msg t c = elim (Bool-cases (c.malloc c.allocs)) [
  | inr e ↦ rw e (omega arith)
  | inl e ↦ elim (Bool-cases (c.malloc (c.allocs + 1))) [
    | inr e' ↦ rw (e, e') (omega arith)
    | inl e' ↦ rw (e, e') (omega (arith, length-append msg (t ∷ [])))
  ]
]

later_lines-LaterHeard :
    (code str : Bytes) (input : List Readline) (msg : List Bytes) (c : Conn)
    → LaterHeard (length input) (length msg) (later_lines code str input msg c)
unfolding later_lines
later_lines-LaterHeard code str [] msg c = refl
later_lines-LaterHeard code str (line (b ∷ l) ∷ rest) msg c =
    let str' = chop (suc (length l)) (store (b ∷ l) str) in
    go str' (later_line code str') (λ msg' c'. later_lines-LaterHeard code str' rest msg' c')
  where
    go :
        (str' : Bytes) (read : Option (Bytes × Bool))
        → ((msg' : List Bytes) (c' : Conn)
            → LaterHeard (length rest) (length msg') (later_lines code str' rest msg' c'))
        → LaterHeard (suc (length rest)) (length msg) (elim read [
          | none ↦ none
          | some (text, last) ↦
              let (msg', c') = add_line msg text c in
              let more = later_lines code str' rest msg' c' in
              if last then some ((none, msg', rest), c') else more
        ])
    go str' none ih = tt
    go str' (some (text, last)) ih =
        let (msg', c') = add_line msg text c in
        let grown = add_line-length msg text c in
        LaterHeard-if last (suc (length rest)) (length msg) (some ((none, msg', rest), c')) _
          (omega arith, grown)
          (LaterHeard-weaken (length rest) (suc (length rest)) (length msg') (length msg) _
            (omega arith) grown (ih msg' c'))
later_lines-LaterHeard code str (timeout ∷ rest) msg c = refl
later_lines-LaterHeard code str (failed ∷ rest) msg c = refl
later_lines-LaterHeard code str (_ ∷ rest) msg c = refl

finish_reply-Heard :
    (n : ℕ) (rp : Response) (c : Conn)
    → length c.input < n
    → 1 ≤ length rp.msg
    → Heard n (some (finish_reply rp c))
unfolding finish_reply
finish_reply-Heard n rp c hn hk = elim (Bool-cases (rp.code == 421)) [
  | inl e ↦ rw e (λ h. absurd (cc))
  | inr e ↦ rw e (λ h. (hn, hk))
]

after_lines-Heard :
    (n : ℕ) (rp : Response) (m : ℕ) (out : Option Later)
    → m < n
    → LaterHeard m 1 out
    → Heard n (elim out [ none ↦ none | some later ↦ some (after_lines rp later) ])
unfolding after_lines
after_lines-Heard n rp m none less h = tt
after_lines-Heard n rp m (some ((some (e, at_eof), msg, rest), c)) less neg_error = λ h. absurd (cc)
after_lines-Heard n rp m (some ((none, msg, rest), c)) less (h1, h2) =
    finish_reply-Heard n (record rp { msg = msg }) (record c { input = rest }) (omega arith) h2

add_line-one :
    (msg : List Bytes) (t : Bytes) (c : Conn)
    → MemoryOk c
    → (1 ≤ length (add_line msg t c).0) × ((add_line msg t c).1.input ≡ c.input)
add_line-one msg t c memory =
    rw (add_line_lem msg t c memory) (omega (arith, length-append msg (t ∷ [])), refl)

read_reply-Heard :
    (n : ℕ) (rp : Response) (str : Bytes) (c : Conn)
    → MemoryOk c
    → length c.input < n
    → Heard n (read_reply rp str c)
unfolding read_reply
read_reply-Heard n rp str c memory less = go (c_string (drop 4 str)) refl
  where
    go : (o : Option Bytes) → c_string (drop 4 str) ≡ o → Heard n (read_reply rp str c)
    go none e = rw (e, read_reply) tt
    go (some text) e' =
        let code = cstr (set str 3 0) in
        let added = add_line rp.msg text c in
        let (one, same) = add_line-one rp.msg text c memory in
        let heard = record rp {
          msg = added.0;
          code_type = get_or str 0 0 - b'0';
          code = atoi_from 0 code;
        } in
        elim (Bool-cases (get_or str 3 0 == b'-')) [
          | inl e ↦
              rw (e', read_reply, e)
                (after_lines-Heard n heard (length c.input) _ less (
                  LaterHeard-weaken (length added.1.input) (length c.input) (length added.0) 1 _
                    (rw same (omega arith)) one
                    (later_lines-LaterHeard code (set str 3 0) added.1.input added.0 added.1)))
          | inr e ↦ rw (e', read_reply, e) (finish_reply-Heard n heard added.1 (rw same less) one)
        ]

receive-Heard :
    (rp : Response) (c : Conn) (n : ℕ) (out : Got)
    → MemoryOk c
    → Shorter n out
    → Heard n (receive rp c out)
unfolding receive
receive-Heard rp c n (lost e at_eof rest) memory h = λ h'. absurd (cc)
receive-Heard rp c n (got str rest) memory h = elim (Bool-cases (is_digit (get_or str 0 0))) [
  | inl d ↦ rw d (read_reply-Heard n rp str (record c { input = rest }) memory h)
  | inr d ↦ rw d (λ h'. absurd (cc))
]

-- While memory is at hand, an accepted reply has at least one line, and at least one line of the
-- input was read for it.
pub get_response-Heard :
    (rp : Response) (c : Conn) → MemoryOk c → Heard (length c.input) (get_response rp c)
unfolding get_response
get_response-Heard rp c memory =
    receive-Heard rp c (length c.input) (first_line (gone c) c.junk c.input) memory
      (first_line-Shorter (gone c) c.junk c.input)
