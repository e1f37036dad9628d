-- ===== src/Commands/AsciiSize/Laws.antt =====
-- The size that FTPLocalASCIIFileSize gives is that of the file as it is sent.
use libncftp.Base.{
  ℕ, ◌+◌, Bool, true, false, not, ◌&&◌, List, [], ◌∷◌, ◌++◌, Option, none, some, Bytes, length,
  if◌then◌else◌, ◌==◌, pos, neg, ◌≡◌, refl, ap, ◌∙◌, arith,
}
use libncftp.Commands.AsciiSize.{count_buffer, count_reads, local_ascii_file_size}

-- A text as it is sent in ASCII mode behind the byte `prevc`: every newline has a carriage return
-- before it.
pub to_network : ℕ → Bytes → Bytes
to_network prevc [] = []
to_network prevc (c ∷ s) =
    let rest = to_network c s in
    if (c == b'\n') && not (prevc == b'\r') then b'\r' ∷ c ∷ rest else c ∷ rest

-- The last byte.
abbrev pub last_of : ℕ → Bytes → ℕ
last_of prevc [] = prevc
last_of prevc (c ∷ s) = last_of c s

-- The reads of a file, one byte or more in each, and what follows them.
abbrev pub reads_of : List (ℕ × Bytes) → List (Option Bytes) → List (Option Bytes)
reads_of [] behind = behind
reads_of ((c, s) ∷ buffers) behind = some (c ∷ s) ∷ reads_of buffers behind

abbrev pub bytes_of : List (ℕ × Bytes) → Bytes
bytes_of [] = []
bytes_of ((c, s) ∷ buffers) = (c ∷ s) ++ bytes_of buffers

to_network-append :
    (prevc : ℕ) (s t : Bytes)
    → length (to_network prevc (s ++ t))
      ≡ length (to_network prevc s) + length (to_network (last_of prevc s) t)
unfolding to_network
to_network-append prevc [] t = ground arith
to_network-append prevc (c ∷ s) t = ground (arith, to_network-append c s t)

count_buffer_prevc : (prevc : ℕ) (s : Bytes) (n : ℕ) → (count_buffer prevc s n).0 ≡ last_of prevc s
unfolding count_buffer
count_buffer_prevc prevc [] n = refl
count_buffer_prevc prevc (c ∷ s) n = count_buffer_prevc c s _

count_buffer_size :
    (prevc : ℕ) (s : Bytes) (n : ℕ)
    → (count_buffer prevc s n).1 + length s ≡ n + length (to_network prevc s)
unfolding count_buffer to_network
count_buffer_size prevc [] n = refl
count_buffer_size prevc (c ∷ s) n =
    ground (arith, count_buffer_size c s (n + 1), count_buffer_size c s n)

count_reads_lem :
    (prevc asize : ℕ) (buffers : List (ℕ × Bytes))
    → (count_reads prevc asize (reads_of buffers (some [] ∷ []))
        ≡ pos (asize + length (to_network prevc (bytes_of buffers))))
      × (count_reads prevc asize (reads_of buffers (none ∷ [])) ≡ neg 1)
unfolding count_reads
count_reads_lem prevc asize [] = (unfold to_network in ground arith, refl)
count_reads_lem prevc asize ((c, s) ∷ buffers) =
    let nread = (count_buffer prevc (c ∷ s) (length (c ∷ s))).1 in
    let (whole, broken) = count_reads_lem (last_of c s) (asize + nread) buffers in
    let size : asize + nread + length (to_network (last_of c s) (bytes_of buffers))
        ≡ asize + length (to_network prevc ((c ∷ s) ++ bytes_of buffers)) =
      omega (
        arith,
        count_buffer_size prevc (c ∷ s) (length (c ∷ s)),
        to_network-append prevc (c ∷ s) (bytes_of buffers),
      ) in
    (
      rw (count_reads, count_buffer_prevc prevc (c ∷ s) (length (c ∷ s))) (whole ∙ ap pos size),
      rw (count_reads, count_buffer_prevc prevc (c ∷ s) (length (c ∷ s))) broken,
    )

-- The size that FTPLocalASCIIFileSize gives for a file that is opened and read to its end is the length
-- of its bytes with a carriage return before each newline that has none, however the reads cut the
-- bytes into buffers, between the two of a pair too. It is -1 if a read fails behind any of them, if
-- the file is not opened, or if there is no buffer.
pub local_ascii_file_size_lem :
    (buffers : List (ℕ × Bytes)) (reads : List (Option Bytes)) (opened : Bool)
    → (local_ascii_file_size true true (reads_of buffers (some [] ∷ []))
        ≡ pos (length (to_network 0 (bytes_of buffers))))
      × (local_ascii_file_size true true (reads_of buffers (none ∷ [])) ≡ neg 1)
      × (local_ascii_file_size true false reads ≡ neg 1)
      × (local_ascii_file_size false opened reads ≡ neg 1)
unfolding local_ascii_file_size
local_ascii_file_size_lem buffers reads opened =
    let (whole, broken) = count_reads_lem 0 0 buffers in
    (rw whole (ap pos (omega arith)), broken, refl, refl)
