-- ===== src/Command/Framing.antt =====
-- The line that is written for a command.
use libncftp.Base.{
  ℕ, suc, ◌+◌, ◌-◌, ◌<◌, true, false, List, [], ◌∷◌, ◌++◌, Option, none, some, Bytes, length, take,
  unsnoc, leb, ◌==◌, ℤ, neg, is_neg, ◌≡◌, ◌≢◌, refl, arith, Bool-cases, inl, inr, length-append,
  append_assoc, take_all,
}
use libncftp.Conn.{Conn, Written, whole, cut, nothing}
use libncftp.Conn.Errors.{
  k_no_err, k_err_bad_parameter, k_err_not_connected, k_err_socket_write_failed,
}
use libncftp.Command.{strip_eol, carried, write_line, send_command_str, send_command}

abbrev pub crlf : Bytes
crlf = b'\r' ∷ b'\n' ∷ []

pub unsnoc-append {ℓ} : {A : Type ℓ} (xs : List A) (x : A) → unsnoc (xs ++ (x ∷ [])) ≡ some (xs, x)
unsnoc-append [] x = refl
unsnoc-append (y ∷ xs) x = rw (unsnoc-append xs x)

module _ (init : Bytes) (x : ℕ) (not_lf : x ≢ b'\n') where
  -- A command that does not end in a newline is left as it is.
  strip_eol_plain : strip_eol (init ++ (x ∷ [])) ≡ some (init ++ (x ∷ []))
  unfolding strip_eol
  strip_eol_plain =
      let other : (x == b'\n') ≡ false = ground arith in rw (unsnoc-append init x, strip_eol, other)

-- A command is written with one carriage return and newline at its end, whether the caller ended it
-- in nothing, in a newline, or in both: the three forms leave the same text. The command has at
-- least two bytes and ends in neither of the two.
pub strip_eol_forms :
    (init : Bytes) (x : ℕ)
    → x ≢ b'\n'
    → x ≢ b'\r'
    → 0 < length init
    → (strip_eol (init ++ (x ∷ [])) ≡ some (init ++ (x ∷ [])))
      × (strip_eol ((init ++ (x ∷ [])) ++ (b'\n' ∷ [])) ≡ some (init ++ (x ∷ [])))
      × (strip_eol ((init ++ (x ∷ [])) ++ crlf) ≡ some (init ++ (x ∷ [])))
unfolding strip_eol
strip_eol_forms init x not_lf not_cr h =
    let body = init ++ (x ∷ []) in
    let other : (x == b'\r') ≡ false = ground arith in
    let long : leb (length (body ++ (b'\n' ∷ []))) 2 ≡ false =
      ground (arith, length-append body (b'\n' ∷ []), length-append init (x ∷ [])) in
    let longer : leb (length ((body ++ (b'\r' ∷ [])) ++ (b'\n' ∷ []))) 2 ≡ false = ground (
      arith,
      length-append (body ++ (b'\r' ∷ [])) (b'\n' ∷ []),
      length-append body (b'\r' ∷ []),
      length-append init (x ∷ []),
    ) in
    (
      strip_eol_plain init x not_lf,
      rw (unsnoc-append body b'\n', strip_eol, long, unsnoc-append init x, other),
      rw (← append_assoc body (b'\r' ∷ []) (b'\n' ∷ [])) (
          rw (
            unsnoc-append (body ++ (b'\r' ∷ [])) b'\n',
            strip_eol,
            longer,
            unsnoc-append body b'\r',
          )),
    )

-- The connection after a line was written and the server has answered it.
abbrev pub after_write : Conn → Bytes → Conn
after_write c text = record c {
  last_result_str = [];
  last_result_num = neg 1;
  sent = c.sent ++ (text ∷ []);
  input = c.input ++ c.peer (c.sent ++ (text ∷ []));
}

-- What SWrite takes of a text when it takes something: all of it, or some first bytes of it.
pub data Taken (text part : Bytes) : Type 0 where
  all_taken : part ≡ text → Taken text part
  cut_taken : (n : ℕ) → part ≡ take (suc n) text → Taken text part

-- FTPSendCommandStr takes a line for written of which SWrite has taken all or some, or fails and sends
-- and reads nothing.
pub data Sends (command : Bytes) (siz : ℕ) (c : Conn) (out : Option (ℤ × Conn)) : Type 0 where
  wrote :
      (body part : Bytes)
      → strip_eol command ≡ some body
      → length (body ++ crlf) < siz - 1
      → c.ctrl_open ≡ true
      → Taken (body ++ crlf) part
      → out ≡ some (k_no_err, after_write c part)
      → Sends command siz c out
  refused :
      (e : ℤ) (err_no : ℤ) (str : Bytes) (num : ℤ)
      → is_neg e ≡ true
      → out ≡ some (e, record c { err_no = err_no; last_result_str = str; last_result_num = num })
      → Sends command siz c out

module _ (command : Bytes) (siz : ℕ) (c : Conn) (is_open : c.ctrl_open ≡ true) where
  Sends-body :
      (body : Bytes)
      → strip_eol command ≡ some body
      → Sends command siz c (send_command_str command siz c)
  unfolding send_command_str write_line carried
  Sends-body body stripped = elim (Bool-cases (leb (siz - 1) (length body + 2))) [
    | inl full ↦
        refused k_err_bad_parameter c.err_no c.last_result_str c.last_result_num refl
          (ground (arith, stripped))
    | inr room ↦ go room (c.writes (c.sent ++ ((body ++ crlf) ∷ []))) refl
  ]
    where
      go :
          leb (siz - 1) (length body + 2) ≡ false
          → (w : Written) → c.writes (c.sent ++ ((body ++ crlf) ∷ [])) ≡ w
          → Sends command siz c (send_command_str command siz c)
      go room nothing e =
          refused k_err_socket_write_failed k_err_socket_write_failed [] (neg 1) refl
            (ground (arith, stripped))
      go room whole e =
          wrote body (body ++ crlf) stripped (ground (arith, length-append body crlf)) is_open
            (all_taken refl) (ground (arith, stripped))
      go room (cut n) e =
          wrote body (take (suc n) (body ++ crlf)) stripped
            (ground (arith, length-append body crlf)) is_open (cut_taken n refl)
            (ground (arith, stripped))

pub send_command_str-Sends :
    (command : Bytes) (siz : ℕ) (c : Conn) → Sends command siz c (send_command_str command siz c)
unfolding send_command_str
send_command_str-Sends command siz c = elim (Bool-cases c.ctrl_open) [
  | inl is_open ↦ go is_open (strip_eol command) refl
  | inr shut ↦
      refused k_err_not_connected k_err_not_connected c.last_result_str c.last_result_num refl
        (ground arith)
]
  where
    go :
        c.ctrl_open ≡ true
        → (o : Option Bytes) → strip_eol command ≡ o
        → Sends command siz c (send_command_str command siz c)
    go is_open none e =
        refused k_err_bad_parameter c.err_no c.last_result_str c.last_result_num refl (ground arith)
    go is_open (some body) e = Sends-body command siz c is_open body e

-- A command that fits the formatting buffer and does not end in a newline.
pub record Sendable (command : Bytes) : Type 0 where
  pub fits : length command + 2 < 511
  pub no_eol : strip_eol command ≡ some command

pub send_command_lem :
    (command : Bytes) (c : Conn)
    → Sendable command
    → c.ctrl_open ≡ true
    → c.writes (c.sent ++ ((command ++ crlf) ∷ [])) ≡ whole
    → send_command command c ≡ some (k_no_err, after_write c (command ++ crlf))
unfolding send_command send_command_str write_line carried
send_command_lem command c s is_open writes =
    let whole : take 510 command ≡ command = take_all 510 command (omega arith) in
    let room : leb 511 (length command + 2) ≡ false = ground arith in
    rw whole (ground (arith, s.no_eol))
