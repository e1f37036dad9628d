-- ===== src/Sio/Readline/Laws.antt =====
-- SReadline on a stream of lines, however the reads cut it.
use libncftp.Base.{
  ℕ, zero, suc, ◌+◌, ◌-◌, ◌≤◌, Bool, true, false, ◌≡◌, ◌≢◌, refl, sym, ap, ◌∙◌, arith, List, [],
  ◌∷◌, ◌++◌, append_assoc, append-nil, Bytes, ltb, ◌==◌, pos, length, take, All, take_all,
  length-append, sub-zero,
}
use libncftp.Conn.{Readline}
use libncftp.Reply.Frame.{wire_line}
use libncftp.Sio.Readline.{
  Read, bytes, Scanned, seen, ended, dry, wrote, stray, scan_buffer, LineRead, finish_line,
  fill_buffer, sreadline, sreadlines,
}

-- No byte of a line is a NUL, a carriage return or a newline.
abbrev pub IsPlain : ℕ → Type 0
IsPlain c = (c ≢ 0) × (c ≢ b'\r') × (c ≢ b'\n')

abbrev newline : Bytes
newline = b'\n' ∷ []

-- The end of a line: a newline, behind a carriage return or not.
abbrev pub ending : Bool → Bytes
ending true = b'\r' ∷ b'\n' ∷ []
ending false = b'\n' ∷ []

-- Reads that each give some bytes.
abbrev pub reads_of : List (ℕ × Bytes) → List Read
reads_of [] = []
reads_of ((c, cs) ∷ chunks) = bytes c cs ∷ reads_of chunks

abbrev pub bytes_of : List (ℕ × Bytes) → Bytes
bytes_of [] = []
bytes_of ((c, cs) ∷ chunks) = c ∷ (cs ++ bytes_of chunks)

-- A scan of a buffer in front of which a line begins: the line ends there, or goes on behind.
data ScanLine (room : ℕ) (l rest tail : Bytes) (out : Scanned) : Type 0 where
  whole :
      (s : Bytes)
      → s ++ tail ≡ rest
      → out ≡ ended (take room (l ++ newline)) 0 s
      → ScanLine room l rest tail out
  part :
      (w l2 : Bytes) (cr : Bool) (room2 : ℕ)
      → All IsPlain l2
      → tail ≡ l2 ++ (ending cr ++ rest)
      → take room (l ++ newline) ≡ w ++ take room2 (l2 ++ newline)
      → out ≡ dry w 0 room2
      → ScanLine room l rest tail out

take-cons :
    (room x : ℕ) (l : Bytes)
    → take room (x ∷ l) ≡ take room (x ∷ []) ++ take (room - length (take room (x ∷ []))) l
take-cons zero x l = refl
take-cons (suc zero) x l = refl
take-cons (suc (suc n)) x l =
    let e : suc n ≡ suc (suc n) - 1 = omega arith in ap (λ k. x ∷ take k l) e

ScanLine-cons :
    (room x : ℕ) (l rest tail : Bytes) (out : Scanned)
    → ScanLine (room - length (take room (x ∷ []))) l rest tail out
    → ScanLine room (x ∷ l) rest tail (wrote (take room (x ∷ [])) out)
ScanLine-cons room x l rest tail out (whole s e eq) =
    whole s e (rw (eq, take-cons room x (l ++ newline)) refl)
ScanLine-cons room x l rest tail out (part w l2 cr room2 p e t eq) =
    part (take room (x ∷ []) ++ w) l2 cr room2 p e
      (take-cons room x (l ++ newline)
        ∙ ap (◌++◌ (take room (x ∷ []))) t
        ∙ sym (append_assoc (take room (x ∷ [])) w (take room2 (l2 ++ newline))))
      (ap (wrote (take room (x ∷ []))) eq)

ScanLine-nil :
    (room : ℕ) (l rest tail : Bytes) (out : Scanned)
    → ScanLine room l rest tail out
    → ScanLine room l rest tail (wrote [] out)
ScanLine-nil room l rest tail out (whole s e eq) = whole s e (ap (wrote []) eq)
ScanLine-nil room l rest tail out (part w l2 cr room2 p e t eq) =
    part w l2 cr room2 p e t (ap (wrote []) eq)

not_stray : (src tail rest : Bytes) → src ++ tail ≡ b'\n' ∷ rest → stray src ≡ false
not_stray [] tail rest e = refl
not_stray (c ∷ src) tail rest e = ground arith

scan_buffer-ScanLine :
    (room : ℕ) (l : Bytes) (cr : Bool) (rest src tail : Bytes)
    → All IsPlain l
    → src ++ tail ≡ l ++ (ending cr ++ rest)
    → ScanLine room l rest tail (scan_buffer true 0 room src)
unfolding scan_buffer
scan_buffer-ScanLine room l cr rest [] tail p e = part [] l cr room p e refl refl
scan_buffer-ScanLine room [] false rest (c ∷ src) tail p e =
    let hc : c ≡ b'\n' = cc in let ht : src ++ tail ≡ rest = cc in rw hc (whole src ht refl)
scan_buffer-ScanLine room [] true rest (c ∷ src) tail p e =
    let hc : c ≡ b'\r' = cc in
    let ht : src ++ tail ≡ b'\n' ∷ rest = cc in
    rw (hc, not_stray src tail rest ht, sub-zero)
      (ScanLine-nil room [] rest tail _ (scan_buffer-ScanLine room [] false rest src tail tt ht))
scan_buffer-ScanLine room (x ∷ l) cr rest (c ∷ src) tail ((n0, nr, nl), p) e =
    let hc : c ≡ x = cc in
    let ht : src ++ tail ≡ l ++ (ending cr ++ rest) = cc in
    let e0 : (x == 0) ≡ false = ground arith in
    let er : (x == b'\r') ≡ false = ground arith in
    let en : (x == b'\n') ≡ false = ground arith in
    rw (hc, e0, er, en)
      (ScanLine-cons room x l rest tail _
        (scan_buffer-ScanLine (room - length (take room (x ∷ []))) l cr rest src tail p ht))

-- What one call gives: the line with a newline, cut to the room; and the stream behind it is left.
abbrev pub Gives : Bytes → Bytes → List Read → LineRead → Type 0
Gives text rest after out =
    (u : Bytes) × (chunks : List (ℕ × Bytes)) × (out ≡ record {
      result = pos (length text);
      text = text;
      info = record { require_eoln = true; unread = u };
      reads = reads_of chunks ++ after;
    })
    × (u ++ bytes_of chunks ≡ rest)

finish_clean :
    (text u : Bytes) (reads : List Read)
    → finish_line true (pos 0) text 0 u reads ≡ record {
      result = pos (length text);
      text = text;
      info = record { require_eoln = true; unread = u };
      reads = reads;
    }
unfolding finish_line
finish_clean [] u reads = refl
finish_clean (c ∷ text) u reads = refl

not_over : (l : Bytes) (cr : Bool) (rest : Bytes) → [] ≢ l ++ (ending cr ++ rest)
not_over [] true rest e = cc
not_over [] false rest e = cc
not_over (x ∷ l) cr rest e = cc

fill_buffer-Gives :
    (w l : Bytes) (cr : Bool) (room : ℕ) (rest : Bytes) (chunks : List (ℕ × Bytes))
    (after : List Read)
    → All IsPlain l
    → bytes_of chunks ≡ l ++ (ending cr ++ rest)
    → Gives
        (w ++ take room (l ++ newline))
        rest
        after
        (fill_buffer true w 0 room (reads_of chunks ++ after))
unfolding fill_buffer
fill_buffer-Gives w l cr room rest [] after p e = absurd (not_over l cr rest e)
fill_buffer-Gives w l cr room rest ((c, cs) ∷ chunks) after p e =
    elim (scan_buffer-ScanLine room l cr rest (c ∷ cs) (bytes_of chunks) p e) [
      | whole s e' eq ↦ (
        s,
        chunks,
        rw (eq, fill_buffer)
            (finish_clean (w ++ take room (l ++ newline)) s (reads_of chunks ++ after)),
        e',
      )
      | part w2 l2 cr2 room2 p2 e2 t eq ↦
          rw (eq, fill_buffer, t, sym (append_assoc w w2 (take room2 (l2 ++ newline))))
            (fill_buffer-Gives (w ++ w2) l2 cr2 room2 rest chunks after p2 e2)
    ]

-- SReadline for a reader that wants whole lines, on a stream that begins with a line, behind what is
-- in its buffer, and that is read in pieces of any sizes: it gives the line and one newline, without a
-- carriage return, cut to the size of `linebuf` less its NUL; and what is behind the line, in the
-- buffer and in the reads to come, is left. The line has no NUL, carriage return or newline in it, and
-- ends in a newline, or a carriage return and a newline.
pub sreadline_lem :
    (u l : Bytes) (cr : Bool) (size : ℕ) (rest : Bytes) (chunks : List (ℕ × Bytes))
    (after : List Read)
    → 2 ≤ size
    → All IsPlain l
    → u ++ bytes_of chunks ≡ l ++ (ending cr ++ rest)
    → Gives
        (take (size - 1) (l ++ newline))
        rest
        after
        (sreadline (record { require_eoln = true; unread = u }) size (reads_of chunks ++ after))
unfolding sreadline
sreadline_lem u l cr size rest chunks after big p e =
    let fits : ltb size 2 ≡ false = ground arith in
    elim (scan_buffer-ScanLine (size - 1) l cr rest u (bytes_of chunks) p e) [
      | whole s e' eq ↦ (
        s,
        chunks,
        rw (fits, eq) (finish_clean (take (size - 1) (l ++ newline)) s (reads_of chunks ++ after)),
        e',
      )
      | part w l2 cr2 room2 p2 e2 t eq ↦
          rw (fits, eq, t) (fill_buffer-Gives w l2 cr2 room2 rest chunks after p2 e2)
    ]

-- The stream of lines with their endings, and the lines as they are read.
abbrev pub stream : List (Bytes × Bool) → Bytes
stream [] = []
stream ((l, cr) ∷ lines) = l ++ (ending cr ++ stream lines)

abbrev pub wire_lines : List (Bytes × Bool) → List Readline
wire_lines [] = []
wire_lines ((l, cr) ∷ lines) = wire_line l ∷ wire_lines lines

abbrev pub FitsLine : ℕ → Bytes × Bool → Type 0
FitsLine size (l, cr) = All IsPlain l × (length l + 2 ≤ size)

seen_line :
    (l u : Bytes) (reads : List Read)
    → seen (record {
      result = pos (length (l ++ newline));
      text = l ++ newline;
      info = record { require_eoln = true; unread = u };
      reads = reads;
    })
      ≡ wire_line l
seen_line [] u reads = refl
seen_line (c ∷ l) u reads = refl

-- A server's lines, each with its own ending, none longer than the array, and none with a NUL, a
-- carriage return or a newline in its text, are read one for each call of SReadline, each with one
-- newline and no carriage return, however the stream of them is cut into reads. So the connection block
-- of this model holds them as they are given.
pub sreadlines_lem :
    (size : ℕ) (lines : List (Bytes × Bool)) (u : Bytes) (chunks : List (ℕ × Bytes))
    → All (FitsLine size) lines
    → u ++ bytes_of chunks ≡ stream lines
    → sreadlines (length lines) (record { require_eoln = true; unread = u }) size (reads_of chunks)
      ≡ wire_lines lines
unfolding sreadlines
sreadlines_lem size [] u chunks h e = refl
sreadlines_lem size ((l, cr) ∷ lines) u chunks ((plain, fits), h) e =
    let big : 2 ≤ size = omega arith in
    let whole : take (size - 1) (l ++ newline) ≡ l ++ newline =
      take_all (size - 1) (l ++ newline) (omega (arith, length-append l newline)) in
    let (u', chunks', eq, e') = sreadline_lem u l cr size (stream lines) chunks [] big plain e in
    let eq' = rw (append-nil (reads_of chunks), append-nil (reads_of chunks'), whole) at eq in
    let said = ap seen eq' ∙ seen_line l u' (reads_of chunks') in
    let more =
      ap (λ (o : LineRead). sreadlines (length lines) o.info size o.reads) eq'
      ∙ sreadlines_lem size lines u' chunks' h e' in
    rw (said, more) refl
