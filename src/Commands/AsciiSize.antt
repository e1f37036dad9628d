-- ===== src/Commands/AsciiSize.antt =====
-- FTPLocalASCIIFileSize of libncftp/c_size.c. The file is what its calls of `read` give: `none` for an
-- error, no byte at its end. `longest_int` does not overflow here.
pub mod Laws
use libncftp.Base.{
  ℕ, ◌+◌, Bool, true, false, not, ◌&&◌, List, [], ◌∷◌, Option, none, some, Bytes, length,
  if◌then◌else◌, ◌==◌, ℤ, pos, neg,
}

-- The loop over one buffer: `prevc` and `nread` behind it.
pub count_buffer : ℕ → Bytes → ℕ → ℕ × ℕ
count_buffer prevc [] nread = (prevc, nread)
count_buffer prevc (c ∷ s) nread =
    count_buffer c s (if (c == b'\n') && not (prevc == b'\r') then nread + 1 else nread)

-- The loop over the reads.
pub count_reads : ℕ → ℕ → List (Option Bytes) → ℤ
unfolding count_buffer
count_reads prevc asize [] = pos asize
count_reads prevc asize (none ∷ reads) = neg 1
count_reads prevc asize (some [] ∷ reads) = pos asize
count_reads prevc asize (some (c ∷ s) ∷ reads) =
    let (prevc', nread) = count_buffer prevc (c ∷ s) (length (c ∷ s)) in
    count_reads prevc' (asize + nread) reads

-- FTPLocalASCIIFileSize: whether there is a buffer, the caller's or one from `malloc`, whether the
-- file is opened, and its reads.
unfoldable pub local_ascii_file_size : Bool → Bool → List (Option Bytes) → ℤ
unfolding count_reads
local_ascii_file_size buffered opened reads =
    if buffered then (if opened then count_reads 0 0 reads else neg 1) else neg 1
