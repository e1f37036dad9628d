-- ===== src/Port/Laws.antt =====
-- An address that is written as FTPSendPort writes it is read by FTPSendPassive.
use libncftp.Base.{
  ℕ, suc, ◌+◌, ◌-◌, ◌*◌, ◌/◌, ◌%◌, ◌<◌, true, false, List, [], ◌∷◌, ◌++◌, Option, none, some, Bytes,
  codes, ltb, ◌==◌, if◌then◌else◌, ℤ, pos, is_neg, int_eq, is_digit, All, ◌≡◌, refl, ap, sym, ◌∙◌,
  arith, append_assoc, Bool-cases, inl, inr,
}
use libncftp.Conn.{Conn, M, ◌>>=◌, return, fail_with}
use libncftp.Reply.{Response, empty_response}
use libncftp.Conn.Errors.{k_no_err, k_err_port_failed}
use libncftp.Reply.Frame.{Reply, Middle, read_as}
use libncftp.Command.Exchange.{Answers, after_exchange, done_with_reply}
use libncftp.Commands.Ask.{ask_lem}
use libncftp.Opening.Features.Mlst.{is_space}
use libncftp.Port.{
  Sockaddr, decimal, numbers, scan_digits, scan_int, scan_more, scan_numbers, from_digit, octet,
  address_of, read_address, use_passive, send_passive, send_port, no_memory,
}

-- Each part is a byte.
pub record IsAddress (a : Sockaddr) : Type 0 where
  pub addr0_small : a.addr0 < 256
  pub addr1_small : a.addr1 < 256
  pub addr2_small : a.addr2 < 256
  pub addr3_small : a.addr3 < 256
  pub port0_small : a.port0 < 256
  pub port1_small : a.port1 < 256

-- No digit comes next.
abbrev pub Stops : Bytes → Type 0
Stops [] = Unit
Stops (c ∷ s) = is_digit c ≡ false

scan_digits-Stops : (n : ℕ) (s : Bytes) → Stops s → scan_digits n s ≡ (n, s)
scan_digits-Stops n [] h = refl
scan_digits-Stops n (c ∷ s) h = rw h refl

scan_digit :
    (n d : ℕ) (s : Bytes) → d < 10 → scan_digits n ((b'0' + d) ∷ s) ≡ scan_digits (n * 10 + d) s
scan_digit n d s h =
    let digit : is_digit (b'0' + d) ≡ true = ground arith in
    let value : b'0' + d - b'0' ≡ d = omega arith in rw (digit, value) refl

-- A text that begins with a digit is read as digits.
scan_int_digit :
    (d : ℕ) (s : Bytes)
    → d < 10
    → scan_int ((b'0' + d) ∷ s)
      ≡ (let (n, rest) = scan_digits 0 ((b'0' + d) ∷ s) in some (pos n, rest))
scan_int_digit d s h =
    let black : is_space (b'0' + d) ≡ false = ground arith in
    let no_minus : (b'0' + d == b'-') ≡ false = ground arith in
    let no_plus : (b'0' + d == b'+') ≡ false = ground arith in
    let digit : is_digit (b'0' + d) ≡ true = ground arith in
    rw (black, no_minus, no_plus, digit) refl

-- Up to three digits.
digits1 : (d : ℕ) (s : Bytes) → d < 10 → Stops s → scan_int ((b'0' + d) ∷ s) ≡ some (pos d, s)
digits1 d s h stops =
    let value : 0 * 10 + d ≡ d = omega arith in
    scan_int_digit d s h
    ∙ ap (λ p. let (n, rest) = p in some (pos n, rest))
        (scan_digit 0 d s h ∙ scan_digits-Stops (0 * 10 + d) s stops ∙ ap (λ n. (n, s)) value)

digits2 :
    (d e : ℕ) (s : Bytes)
    → d < 10
    → e < 10
    → Stops s
    → scan_int ((b'0' + d) ∷ (b'0' + e) ∷ s) ≡ some (pos (d * 10 + e), s)
digits2 d e s h h' stops =
    let value : (0 * 10 + d) * 10 + e ≡ d * 10 + e = omega arith in
    scan_int_digit d ((b'0' + e) ∷ s) h
    ∙ ap (λ p. let (n, rest) = p in some (pos n, rest))
        (scan_digit 0 d ((b'0' + e) ∷ s) h
          ∙ scan_digit (0 * 10 + d) e s h'
          ∙ scan_digits-Stops _ s stops
          ∙ ap (λ n. (n, s)) value)

digits3 :
    (d e f : ℕ) (s : Bytes)
    → d < 10
    → e < 10
    → f < 10
    → Stops s
    → scan_int ((b'0' + d) ∷ (b'0' + e) ∷ (b'0' + f) ∷ s) ≡ some (pos ((d * 10 + e) * 10 + f), s)
digits3 d e f s h h' h'' stops =
    let value : ((0 * 10 + d) * 10 + e) * 10 + f ≡ (d * 10 + e) * 10 + f = omega arith in
    scan_int_digit d ((b'0' + e) ∷ (b'0' + f) ∷ s) h
    ∙ ap (λ p. let (n, rest) = p in some (pos n, rest))
        (scan_digit 0 d ((b'0' + e) ∷ (b'0' + f) ∷ s) h
          ∙ scan_digit (0 * 10 + d) e ((b'0' + f) ∷ s) h'
          ∙ scan_digit ((0 * 10 + d) * 10 + e) f s h''
          ∙ scan_digits-Stops _ s stops
          ∙ ap (λ n. (n, s)) value)

scan_int-decimal :
    (n : ℕ) (s : Bytes) → n < 256 → Stops s → scan_int (decimal n ++ s) ≡ some (pos n, s)
scan_int-decimal n s small stops = elim (Bool-cases (ltb n 10)) [
  | inl one ↦ rw one (digits1 n s (ground arith) stops)
  | inr more ↦ elim (Bool-cases (ltb n 100)) [
    | inl two ↦
        let value : n / 10 * 10 + n % 10 ≡ n = omega arith in
        rw (more, two)
          (digits2 (n / 10) (n % 10) s (ground arith) (omega arith) stops
            ∙ ap (λ k. some (pos k, s)) value)
    | inr three ↦
        let value : (n / 100 * 10 + n / 10 % 10) * 10 + n % 10 ≡ n = omega arith in
        rw (more, three)
          (digits3 (n / 100) (n / 10 % 10) (n % 10) s (omega arith) (omega arith) (omega arith)
              stops
            ∙ ap (λ k. some (pos k, s)) value)
  ]
]

scan_more_step :
    (n k : ℕ) (i : ℤ) (s : Bytes) (is : List ℤ)
    → k < 256
    → Stops s
    → scan_more n (pos k, s) ≡ some is
    → scan_more (suc n) (i, b',' ∷ (decimal k ++ s)) ≡ some (i ∷ is)
unfolding scan_more
scan_more_step n k i s is small stops e = rw (scan_int-decimal k s small stops, e) refl

abbrev ints_of : Sockaddr → List ℤ
ints_of a = pos a.addr0 ∷ pos a.addr1 ∷ pos a.addr2 ∷ pos a.addr3 ∷ pos a.port0 ∷ pos a.port1 ∷ []

cut :
    (u v w x y z post : Bytes)
    → (u ++ (b',' ∷ v ++ (b',' ∷ w ++ (b',' ∷ x ++ (b',' ∷ y ++ (b',' ∷ z)))))) ++ post
      ≡ u ++ (b',' ∷ (v ++ (b',' ∷ (w ++ (b',' ∷ (x ++ (b',' ∷ (y ++ (b',' ∷ (z ++ post))))))))))
cut u v w x y z post = simp append_assoc refl

scan_numbers-numbers :
    (a : Sockaddr) (post : Bytes)
    → IsAddress a
    → Stops post
    → scan_numbers (numbers a ++ post) ≡ some (ints_of a)
unfolding scan_numbers scan_more
scan_numbers-numbers a post w stops =
    let s5 : Bytes = decimal a.port1 ++ post in
    let s4 : Bytes = decimal a.port0 ++ (b',' ∷ s5) in
    let s3 : Bytes = decimal a.addr3 ++ (b',' ∷ s4) in
    let s2 : Bytes = decimal a.addr2 ++ (b',' ∷ s3) in
    let s1 : Bytes = decimal a.addr1 ++ (b',' ∷ s2) in
    let e5 = scan_more_step 0 a.port1 (pos a.port0) post _ w.port1_small stops refl in
    let e4 = scan_more_step 1 a.port0 (pos a.addr3) (b',' ∷ s5) _ w.port0_small refl e5 in
    let e3 = scan_more_step 2 a.addr3 (pos a.addr2) (b',' ∷ s4) _ w.addr3_small refl e4 in
    let e2 = scan_more_step 3 a.addr2 (pos a.addr1) (b',' ∷ s3) _ w.addr2_small refl e3 in
    let e1 = scan_more_step 4 a.addr1 (pos a.addr0) (b',' ∷ s2) _ w.addr1_small refl e2 in
    let parts =
      cut (decimal a.addr0) (decimal a.addr1) (decimal a.addr2) (decimal a.addr3) (decimal a.port0)
        (decimal a.port1) post in
    ap scan_numbers parts
    ∙ ap (λ o. elim o [ none ↦ none | some next ↦ scan_more 5 next ])
        (scan_int-decimal a.addr0 (b',' ∷ s1) w.addr0_small refl)
    ∙ e1

from_digit-decimal :
    (n : ℕ) (s : Bytes) → n < 256 → from_digit (decimal n ++ s) ≡ some (decimal n ++ s)
from_digit-decimal n s small = ground arith

from_digit-append :
    (pre s : Bytes) → All (λ c. is_digit c ≡ false) pre → from_digit (pre ++ s) ≡ from_digit s
from_digit-append [] s h = refl
from_digit-append (c ∷ pre) s (no_digit, h) = rw no_digit (from_digit-append pre s h)

octet-small : (n : ℕ) → n < 256 → octet (pos n) ≡ n
octet-small n h = omega arith

byte-tame : (n : ℕ) → n < 256 → ltb 255 n ≡ false
byte-tame n h = ground arith

address_of-ints_of : (a : Sockaddr) → IsAddress a → address_of (ints_of a) ≡ some (a, 0)
address_of-ints_of a w =
    rw
      (
        octet-small a.addr0 w.addr0_small,
        octet-small a.addr1 w.addr1_small,
        octet-small a.addr2 w.addr2_small,
        octet-small a.addr3 w.addr3_small,
        octet-small a.port0 w.port0_small,
        octet-small a.port1 w.port1_small,
        byte-tame a.addr0 w.addr0_small,
        byte-tame a.addr1 w.addr1_small,
        byte-tame a.addr2 w.addr2_small,
        byte-tame a.addr3 w.addr3_small,
        byte-tame a.port0 w.port0_small,
        byte-tame a.port1 w.port1_small,
      )
      refl

read_address-numbers :
    (a : Sockaddr) (pre post : Bytes)
    → IsAddress a
    → All (λ c. is_digit c ≡ false) pre
    → Stops post
    → read_address (pre ++ (numbers a ++ post)) ≡ some (a, 0)
unfolding read_address
read_address-numbers a pre post w h stops =
    let parts =
      cut (decimal a.addr0) (decimal a.addr1) (decimal a.addr2) (decimal a.addr3) (decimal a.port0)
        (decimal a.port1) post in
    let found : from_digit (pre ++ (numbers a ++ post)) ≡ some (numbers a ++ post) =
      from_digit-append pre (numbers a ++ post) h
      ∙ ap from_digit parts
      ∙ from_digit-decimal a.addr0 _ w.addr0_small
      ∙ ap some (sym parts) in
    ap
      (λ o. elim o [
        | none ↦ none
        | some s ↦ (elim (scan_numbers s) [ none ↦ none | some is ↦ address_of is ])
      ])
      found
    ∙ ap (λ o. elim o [ none ↦ none | some is ↦ address_of is ])
        (scan_numbers-numbers a post w stops)
    ∙ address_of-ints_of a w

heard_address :
    (r : Reply) (a : Sockaddr)
    → r.d1 - b'0' ≡ 2
    → read_address r.first ≡ some (a, 0)
    → (d : Conn)
    → use_passive (pos (r.d1 - b'0')) (read_as r empty_response) d
      ≡ some ((k_no_err, some (a, 0)), d)
unfolding use_passive
heard_address r a class e d = go r.more
  where
    go :
        (more : Option (List Middle × Bytes))
        → use_passive (pos (r.d1 - b'0')) (read_as (record r { more = more }) empty_response) d
          ≡ some ((k_no_err, some (a, 0)), d)
    go none = rw (class, e) refl
    go (some (ms, t)) = rw (class, e) refl

-- Where the server answers PASV with class 2 and a text in which the numbers of an address stand as
-- FTPSendPort writes them, behind a text without digits and not in front of a digit, FTPSendPassive
-- gives kNoErr and that same address, none of whose parts it takes for weird; the reply is the last
-- result. What it takes of the connection is in `Answers`.
pub send_passive-numbers :
    (a : Sockaddr) (pre post : Bytes) (r : Reply) (c : Conn)
    → IsAddress a
    → All (λ c. is_digit c ≡ false) pre
    → Stops post
    → r.first ≡ pre ++ (numbers a ++ post)
    → r.d1 - b'0' ≡ 2
    → Answers c (codes "PASV") r
    → (n : ℕ) × (send_passive c
        ≡ some ((k_no_err, some (a, 0)), after_exchange c (codes "PASV") r n))
unfolding send_passive
send_passive-numbers a pre post r c w h stops text class answers =
    let (n, e) =
      ask_lem c (codes "PASV") r (do e ← no_memory; return (e, none)) use_passive answers in
    let heard =
      heard_address r a class (ap read_address text ∙ read_address-numbers a pre post w h stops) in
    (n, e ∙ rw (heard, done_with_reply r) refl)

-- FTPSendPort sends the numbers of the address, and succeeds exactly on a reply of class 2.
pub send_port_lem :
    (a : Sockaddr) (r : Reply) (c : Conn)
    → Answers c (codes "PORT " ++ numbers a) r
    → (n : ℕ) × (let d = after_exchange c (codes "PORT " ++ numbers a) r n in
        send_port a c ≡ (
          if r.d1 - b'0' == 2
          then some (k_no_err, d)
          else some (k_err_port_failed, record d { err_no = k_err_port_failed })))
unfolding send_port
send_port_lem a r c answers =
    let use_reply : ℤ → Response → M ℤ = λ result rp.
      if is_neg result
      then return result
      else if int_eq result (pos 2)
      then return k_no_err
      else fail_with k_err_port_failed in
    let (n, e) = ask_lem c (codes "PORT " ++ numbers a) r no_memory use_reply answers in
    (
      n,
      e ∙ elim (Bool-cases (r.d1 - b'0' == 2)) [
        | inl done ↦ rw (done, done_with_reply r) refl
        | inr refused ↦ rw (refused, done_with_reply r) refl
      ],
    )
