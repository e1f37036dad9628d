-- ===== src/Port.antt =====
-- libncftp/ftp.c, FTPSendPort, FTPSendPassive and FTPSetStartOffset: what is said on the control
-- connection before a transfer.
--
-- An address is its four bytes and the two of its port, in network order. `%d` of a byte, and
-- `sscanf` with "%d,%d,%d,%d,%d,%d", are written out for numbers that an `int` holds; `%lld` for
-- FTPSetStartOffset is an argument.
pub mod Laws
use libncftp.Base.{
  ℕ, zero, suc, ◌+◌, ◌-◌, ◌*◌, ◌/◌, ◌%◌, Bool, true, false, ◌||◌, List, [], ◌∷◌, ◌++◌, Option, none,
  some, Bytes, codes, ltb, ◌==◌, if◌then◌else◌, ℤ, pos, neg, negsuc, is_neg, int_eq, is_digit,
}
use libncftp.Conn.{Conn, M, ◌>>=◌, ◌>>◌, return, fault, modify, fail_with, available, not_available}
use libncftp.Conn.Errors.{
  k_no_err, k_err_malloc_failed, k_err_set_start_point, k_err_port_failed, k_err_pasv_failed,
}
use libncftp.Reply.{Response}
use libncftp.Commands.Ask.{ask, unimplemented_cmd}
use libncftp.Opening.Features.{learn}
use libncftp.Opening.Features.Mlst.{skip_spaces}

-- `struct sockaddr_in`
pub record Sockaddr : Type 0 where
  pub addr0 : ℕ
  pub addr1 : ℕ
  pub addr2 : ℕ
  pub addr3 : ℕ
  pub port0 : ℕ
  pub port1 : ℕ

-- `%d` of a byte
abbrev pub decimal : ℕ → Bytes
decimal n =
    if ltb n 10
    then (b'0' + n) ∷ []
    else if ltb n 100
    then (b'0' + n / 10) ∷ (b'0' + n % 10) ∷ []
    else (b'0' + n / 100) ∷ (b'0' + n / 10 % 10) ∷ (b'0' + n % 10) ∷ []

-- "%d,%d,%d,%d,%d,%d"
abbrev pub numbers : Sockaddr → Bytes
numbers a =
    decimal a.addr0
    ++ (b',' ∷ decimal a.addr1
        ++ (b',' ∷ decimal a.addr2
            ++ (b',' ∷ decimal a.addr3 ++ (b',' ∷ decimal a.port0 ++ (b',' ∷ decimal a.port1)))))

abbrev pub no_memory : M ℤ
no_memory = fail_with k_err_malloc_failed

-- FTPSendPort. `errNo` is set behind DoneWithResponse, which does not look at it.
unfoldable pub send_port : Sockaddr → M ℤ
unfolding ask
send_port a = ask (codes "PORT " ++ numbers a) no_memory (λ result rp.
    if is_neg result
    then return result
    else if int_eq result (pos 2)
    then return k_no_err
    else fail_with k_err_port_failed)

-- `%d` of `sscanf`, behind its first byte: the number so far, and what is left.
abbrev pub scan_digits : ℕ → Bytes → ℕ × Bytes
scan_digits n [] = (n, [])
scan_digits n (c ∷ s) =
    let more = scan_digits (n * 10 + (c - b'0')) s in if is_digit c then more else (n, c ∷ s)

abbrev pub scan_unsigned : Bytes → Option (ℕ × Bytes)
scan_unsigned [] = none
scan_unsigned (c ∷ s) = if is_digit c then some (scan_digits 0 (c ∷ s)) else none

abbrev pub signed : (ℕ → ℤ) → Option (ℕ × Bytes) → Option (ℤ × Bytes)
signed sign none = none
signed sign (some (n, s)) = some (sign n, s)

abbrev pub scan_sign : Bytes → Option (ℤ × Bytes)
scan_sign [] = none
scan_sign (c ∷ s) =
    if c == b'-'
    then signed neg (scan_unsigned s)
    else if c == b'+'
    then signed pos (scan_unsigned s)
    else signed pos (scan_unsigned (c ∷ s))

abbrev pub scan_int : Bytes → Option (ℤ × Bytes)
scan_int s = scan_sign (skip_spaces s)

-- What follows a number: a comma and `n` more numbers.
pub scan_more : ℕ → ℤ × Bytes → Option (List ℤ)
scan_more zero (i, s) = some (i ∷ [])
scan_more (suc n) (i, []) = none
scan_more (suc n) (i, c ∷ s) =
    let rest : Option (List ℤ) = elim (scan_int s) [
      | none ↦ none
      | some next ↦ (elim (scan_more n next) [ none ↦ none | some is ↦ some (i ∷ is) ])
    ] in
    if c == b',' then rest else none

-- `sscanf(cp, "%d,%d,%d,%d,%d,%d", …)`, if it reads all six.
unfoldable pub scan_numbers : Bytes → Option (List ℤ)
unfolding scan_more
scan_numbers s = elim (scan_int s) [ none ↦ none | some next ↦ scan_more 5 next ]

-- The text from the first digit on.
abbrev pub from_digit : Bytes → Option Bytes
from_digit [] = none
from_digit (c ∷ s) = let rest = from_digit s in if is_digit c then some (c ∷ s) else rest

-- `(unsigned char) (i & 0xff)`
abbrev pub octet : ℤ → ℕ
octet (pos n) = n % 256
octet (negsuc n) = 255 - n % 256

-- `(i < 0) || (i > 255)`
abbrev pub is_weird : ℤ → Bool
is_weird (pos n) = ltb 255 n
is_weird (negsuc n) = true

abbrev pub count_weird : List ℤ → ℕ
count_weird [] = 0
count_weird (i ∷ is) = (if is_weird i then 1 else 0) + count_weird is

-- `*saddr` and `*weird`, where they are written.
abbrev pub address_of : List ℤ → Option (Sockaddr × ℕ)
address_of (i0 ∷ i1 ∷ i2 ∷ i3 ∷ i4 ∷ i5 ∷ []) = some (
  record {
    addr0 = octet i0;
    addr1 = octet i1;
    addr2 = octet i2;
    addr3 = octet i3;
    port0 = octet i4;
    port1 = octet i5;
  },
  count_weird (i0 ∷ i1 ∷ i2 ∷ i3 ∷ i4 ∷ i5 ∷ []),
)
address_of _ = none

-- The address in the first line of the reply to PASV.
unfoldable pub read_address : Bytes → Option (Sockaddr × ℕ)
unfolding scan_numbers
read_address line = elim (from_digit line) [
  | none ↦ none
  | some s ↦ elim (scan_numbers s) [ none ↦ none | some is ↦ address_of is ]
]

-- What is done with a line that was heard. A line without an address leaves `result` as it is, 2.
abbrev pub take_address : ℤ → Option (Sockaddr × ℕ) → ℤ × Option (Sockaddr × ℕ)
take_address result none = (result, none)
take_address result (some a) = (k_no_err, some a)

-- The reply to PASV.
unfoldable pub use_passive : ℤ → Response → M (ℤ × Option (Sockaddr × ℕ))
unfolding read_address
use_passive result rp =
    if is_neg result
    then return (result, none)
    else if rp.code_type == 2
    then elim rp.msg [
      | [] ↦ fault
      | first ∷ others ↦ return (take_address result (read_address first))
    ]
    else (do e ← fail_with k_err_pasv_failed; return (e, none))

-- FTPSendPassive, for a `weird` that is not NULL: the result, and what is written to `*saddr` and
-- `*weird`.
unfoldable pub send_passive : M (ℤ × Option (Sockaddr × ℕ))
unfolding ask use_passive
send_passive = ask (codes "PASV") (do e ← no_memory; return (e, none)) use_passive

-- `restartPt` as it is sent.
abbrev pub restart_at : ℤ → ℤ
restart_at start = if int_eq start (neg 1) then pos 0 else start

-- The reply to REST.
abbrev pub use_rest : ℤ → Response → M ℤ
use_rest result rp =
    if is_neg result
    then return result
    else if int_eq result (pos 0)
        || int_eq result (pos 1)
        || int_eq result (pos 2)
        || int_eq result (pos 3)
    then (do modify (learn (λ f. record f { has_rest = available })); return k_no_err)
    else if unimplemented_cmd rp.code
    then (do
      modify (learn (λ f. record f { has_rest = not_available }))
      fail_with k_err_set_start_point)
    else fail_with k_err_set_start_point

-- FTPSetStartOffset; `print` is `%lld`.
unfoldable pub set_start_offset : (ℤ → Bytes) → ℤ → M ℤ
unfolding ask
set_start_offset print start =
    if int_eq start (pos 0)
    then return k_no_err
    else ask (codes "REST " ++ print (restart_at start)) no_memory use_rest
