-- ===== src/Tests/Streams.antt =====
-- Runs of SReadline.
use libncftp.Base.{ℕ, ◌<◌, true, false, List, [], ◌∷◌, Bytes, codes, length, All, ◌≡◌, refl, arith}
use libncftp.Sio.Readline.{bytes, end, error, Info, sreadline, sreadlines}
use libncftp.Sio.Readline.Bounds.{sreadline-length}
use libncftp.Sio.Readline.Laws.{IsPlain, reads_of, wire_lines, sreadlines_lem}

abbrev empty_buffer : Info
empty_buffer = record { require_eoln = true; unread = [] }

-- "ab\r" and "\ncd\n" in two reads.
abbrev two_reads : List (ℕ × Bytes)
two_reads = (b'a', b'b' ∷ b'\r' ∷ []) ∷ (b'\n', b'c' ∷ b'd' ∷ b'\n' ∷ []) ∷ []

ab-IsPlain : All IsPlain (codes "ab")
ab-IsPlain = ground arith

cd-IsPlain : All IsPlain (codes "cd")
cd-IsPlain = ground arith

sreadline-length_example :
    length (sreadline empty_buffer 4 (bytes b'l' (codes "ong line") ∷ error 1 ∷ end ∷ [])).text < 4
sreadline-length_example =
    sreadline-length empty_buffer 4 (bytes b'l' (codes "ong line") ∷ error 1 ∷ end ∷ [])
      (ground arith)

sreadlines_lem_example :
    sreadlines 2 empty_buffer 512 (reads_of two_reads)
    ≡ wire_lines ((codes "ab", true) ∷ (codes "cd", false) ∷ [])
sreadlines_lem_example =
    sreadlines_lem 512 ((codes "ab", true) ∷ (codes "cd", false) ∷ []) [] two_reads
      ((ab-IsPlain, ground arith), ((cd-IsPlain, ground arith), tt)) refl
