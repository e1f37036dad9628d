-- ===== src/Sio/Readline/Bounds.antt =====
-- SReadline writes in its array, whatever the reads give.
use libncftp.Base.{
  ℕ, ◌+◌, ◌-◌, ◌≤◌, ◌<◌, Bool, false, ◌&&◌, not, ◌≡◌, arith, List, [], ◌∷◌, ◌++◌, Bytes, ltb, ◌==◌,
  ℤ, pos, negsuc, length, Bool-cases, inl, inr, length-append, length-take, refl,
}
use libncftp.Sio.Readline.{
  Read, bytes, end, error, Info, Scanned, ended, dry, wrote, kept, count_illegal, scan_buffer,
  LineRead, finish_line, after_scan, use_read, fill_buffer, sreadline,
}

-- What was written and the room that is left are no more than the room.
abbrev InRoom : ℕ → Scanned → Type 0
InRoom room (ended text illegals rest) = length text ≤ room
InRoom room (dry text illegals left) = length text + left ≤ room

InRoom-wrote :
    (room n : ℕ) (w : Bytes) (out : Scanned)
    → length w ≤ room
    → n ≡ room - length w
    → InRoom n out
    → InRoom room (wrote w out)
InRoom-wrote room n w (ended text i rest) fits e h = omega (arith, length-append w text)
InRoom-wrote room n w (dry text i left) fits e h = omega (arith, length-append w text)

length-kept : (room c : ℕ) → length (kept room c) ≤ room
length-kept room c = ground (arith, length-take room (c ∷ []))

scan_buffer-InRoom :
    (req : Bool) (i room : ℕ) (src : Bytes) → InRoom room (scan_buffer req i room src)
unfolding scan_buffer
scan_buffer-InRoom req i room [] = elim (Bool-cases (not req && room == 0)) [
  | inl full ↦ rw full (omega arith)
  | inr more ↦ rw more (omega arith)
]
scan_buffer-InRoom req i room (c ∷ src) =
    let w = kept room c in
    let fits = length-kept room c in
    elim (Bool-cases (not req && room == 0)) [
      | inl full ↦ rw full (omega arith)
      | inr more ↦ elim (Bool-cases (c == b'\n')) [
        | inl nl ↦ rw (more, nl) fits
        | inr other ↦
            rw (more, other)
              (InRoom-wrote room (room - length w) w _ fits refl
                (scan_buffer-InRoom req (count_illegal c src i) (room - length w) src))
      ]
    ]

finish_line-length :
    (req : Bool) (err : ℤ) (text : Bytes) (i : ℕ) (u : Bytes) (reads : List Read) (most : ℕ)
    → 1 ≤ most
    → length text ≤ most
    → length (finish_line req err text i u reads).text ≤ most
unfolding finish_line
finish_line-length req err [] i u reads most one h = ground arith
finish_line-length req err (c ∷ text) i u reads most one h = h

after_scan_buffer-length :
    (req : Bool) (text : Bytes) (room : ℕ) (reads : List Read) (next : Bytes → ℕ → ℕ → LineRead)
    (out : Scanned) (most : ℕ)
    → 1 ≤ most
    → length text + room ≤ most
    → InRoom room out
    → ((t : Bytes) (i r : ℕ) → length t + r ≤ most → length (next t i r).text ≤ most)
    → length (after_scan req text reads next out).text ≤ most
after_scan_buffer-length req text room reads next (ended w i rest) most one h fits more =
    finish_line-length req (pos 0) (text ++ w) i rest reads most one
      (omega (arith, length-append text w))
after_scan_buffer-length req text room reads next (dry w i left) most one h fits more =
    more (text ++ w) i left (omega (arith, length-append text w))

use_read-length :
    (req : Bool) (text : Bytes) (i room : ℕ) (reads : List Read) (next : Bytes → ℕ → ℕ → LineRead)
    (read : Read) (most : ℕ)
    → 1 ≤ most
    → length text + room ≤ most
    → ((t : Bytes) (i r : ℕ) → length t + r ≤ most → length (next t i r).text ≤ most)
    → length (use_read req text i room reads next read).text ≤ most
use_read-length req text i room reads next end most one h more =
    finish_line-length req (pos 0) text i [] reads most one (omega arith)
use_read-length req text i room reads next (error n) most one h more =
    finish_line-length req (negsuc n) text i [] reads most one (omega arith)
use_read-length req text i room reads next (bytes c cs) most one h more =
    after_scan_buffer-length req text room reads next _ most one h
      (scan_buffer-InRoom req i room (c ∷ cs)) more

fill_buffer-length :
    (req : Bool) (reads : List Read) (most : ℕ) (text : Bytes) (i room : ℕ)
    → 1 ≤ most
    → length text + room ≤ most
    → length (fill_buffer req text i room reads).text ≤ most
unfolding fill_buffer
fill_buffer-length req [] most text i room one h =
    finish_line-length req (pos 0) text i [] [] most one (omega arith)
fill_buffer-length req (read ∷ reads) most text i room one h = elim (Bool-cases (ltb 1 i)) [
  | inl over ↦
      rw (over, fill_buffer)
        (finish_line-length req (pos 0) text i [] (read ∷ reads) most one (omega arith))
  | inr more ↦
      rw (more, fill_buffer)
        (use_read-length req text i room reads (λ t i r. fill_buffer req t i r reads) read most one
          h (λ t i r h. fill_buffer-length req reads most t i r one h))
]

-- For an array of two bytes or more, whatever SRead gives, the text that SReadline writes fits the
-- array with its NUL.
pub sreadline-length :
    (srl : Info) (size : ℕ) (reads : List Read)
    → 2 ≤ size
    → length (sreadline srl size reads).text < size
unfolding sreadline
sreadline-length srl size reads big =
    let enough : ltb size 2 ≡ false = ground arith in
    let fits =
      after_scan_buffer-length srl.require_eoln [] (size - 1) reads
        (λ t i r. fill_buffer srl.require_eoln t i r reads)
        (scan_buffer srl.require_eoln 0 (size - 1) srl.unread) (size - 1) (omega arith)
        (omega arith) (scan_buffer-InRoom srl.require_eoln 0 (size - 1) srl.unread)
        (λ t i r h. fill_buffer-length srl.require_eoln reads (size - 1) t i r (omega arith) h) in
    rw enough (omega arith)
