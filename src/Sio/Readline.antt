-- ===== src/Sio/Readline.antt =====
-- sio/SReadline.c: lines out of a buffered stream.
--
-- SRead, which calls the operating system, is a list of results, one for each call: some bytes, at
-- least one; the end of the stream; or an error. A list that is used up gives the end of the stream.
-- The buffer is given by its part that is not consumed, from `bufPtr` up to `bufLim`.
pub mod Bounds
pub mod Laws
use libncftp.Conn.{Readline, line, eof, timeout, failed}
use libncftp.Base.{
  ℕ, zero, suc, ◌-◌, Bool, true, false, not, ◌&&◌, ◌||◌, List, [], ◌∷◌, ◌++◌, Bytes, ltb, ◌==◌,
  if◌then◌else◌, ℤ, pos, negsuc, is_neg, length, take, Option, none, some,
}

pub data Read : Type 0 where
  bytes : ℕ → Bytes → Read
  end : Read
  -- The result -(n + 1).
  error : ℕ → Read

-- SReadlineInfo
pub record Info : Type 0 where
  pub require_eoln : Bool
  pub unread : Bytes

-- InitSReadlineInfo behind its checks and its allocation.
unfoldable pub init_sreadline_info : Bool → Info
init_sreadline_info require_eoln = record { require_eoln = require_eoln; unread = [] }

-- FlushSReadlineInfo
unfoldable pub flush_sreadline_info : Info → Info
flush_sreadline_info srl = record srl { unread = [] }

-- How far the loop comes with what is in the buffer: to its end, with what was written to `linebuf`,
-- the illegal bytes so far, and what is left in the buffer; or to the end of the buffer, with the room
-- that is left in `linebuf`.
pub data Scanned : Type 0 where
  ended : Bytes → ℕ → Bytes → Scanned
  dry : Bytes → ℕ → ℕ → Scanned

abbrev pub wrote : Bytes → Scanned → Scanned
wrote w (ended text illegals rest) = ended (w ++ text) illegals rest
wrote w (dry text illegals room) = dry (w ++ text) illegals room

-- `(src < srl->bufLim) && (*src != '\n')`, behind a carriage return.
abbrev pub stray : Bytes → Bool
stray [] = false
stray (c ∷ src) = not (c == b'\n')

-- A NUL, and a carriage return that no newline follows in the buffer.
abbrev pub count_illegal : ℕ → Bytes → ℕ → ℕ
count_illegal c src illegals =
    if c == 0 || (c == b'\r' && stray src) then suc illegals else illegals

-- What a byte leaves in `linebuf`.
abbrev pub kept : ℕ → ℕ → Bytes
kept room c = if c == 0 || c == b'\r' then [] else take room (c ∷ [])

-- The loop on the bytes in the buffer; `room` is `dstlim - dst`.
unfoldable pub scan_buffer : Bool → ℕ → ℕ → Bytes → Scanned
scan_buffer require_eoln illegals room [] =
    if not require_eoln && room == 0 then ended [] illegals [] else dry [] illegals room
scan_buffer require_eoln illegals room (c ∷ src) =
    let w = kept room c in
    let rest = scan_buffer require_eoln (count_illegal c src illegals) (room - length w) src in
    if not require_eoln && room == 0
    then ended [] illegals (c ∷ src)
    else if c == b'\n'
    then ended w illegals src
    else wrote w rest

-- What SReadline gives: its result, the text before the NUL in `linebuf`, the buffer, and the results
-- of SRead that are to come.
pub record LineRead : Type 0 where
  pub result : ℤ
  pub text : Bytes
  pub info : Info
  pub reads : List Read

-- The label `done`. An empty line with illegal bytes is given as a newline.
unfoldable pub finish_line : Bool → ℤ → Bytes → ℕ → Bytes → List Read → LineRead
finish_line require_eoln err text illegals unread reads =
    let text' : Bytes = elim text [
      | [] ↦ if require_eoln && ltb 0 illegals then b'\n' ∷ [] else []
      | c ∷ text ↦ c ∷ text
    ] in
    record {
      result = if is_neg err then err else pos (length text');
      text = text';
      info = record { require_eoln = require_eoln; unread = unread };
      reads = reads;
    }

-- What follows the scan of the buffer: the label `done`, or the next round.
abbrev pub after_scan : Bool → Bytes → List Read → (Bytes → ℕ → ℕ → LineRead) → Scanned → LineRead
after_scan require_eoln text reads next (ended w i rest) =
    finish_line require_eoln (pos 0) (text ++ w) i rest reads
after_scan require_eoln text reads next (dry w i room) = next (text ++ w) i room

-- What follows SRead.
abbrev pub use_read :
    Bool → Bytes → ℕ → ℕ → List Read → (Bytes → ℕ → ℕ → LineRead) → Read → LineRead
use_read require_eoln text illegals room reads next end =
    finish_line require_eoln (pos 0) text illegals [] reads
use_read require_eoln text illegals room reads next (error n) =
    finish_line require_eoln (negsuc n) text illegals [] reads
use_read require_eoln text illegals room reads next (bytes c cs) =
    after_scan require_eoln text reads next (scan_buffer require_eoln illegals room (c ∷ cs))

-- The loop from an empty buffer on. After two illegal bytes it does not read any more.
unfoldable pub fill_buffer : Bool → Bytes → ℕ → ℕ → List Read → LineRead
fill_buffer require_eoln text illegals room [] =
    finish_line require_eoln (pos 0) text illegals [] []
fill_buffer require_eoln text illegals room (read ∷ reads) =
    if ltb 1 illegals
    then finish_line require_eoln (pos 0) text illegals [] (read ∷ reads)
    else use_read require_eoln text illegals room reads
        (λ t i r. fill_buffer require_eoln t i r reads) read

-- SReadline, for pointers that are not NULL.
unfoldable pub sreadline : Info → ℕ → List Read → LineRead
sreadline srl size reads =
    if ltb size 2
    then record { result = negsuc 0; text = []; info = srl; reads = reads }
    else (after_scan srl.require_eoln [] reads (λ t i r. fill_buffer srl.require_eoln t i r reads)
        (scan_buffer srl.require_eoln 0 (size - 1) srl.unread))

-- The result as GetResponse takes it: 0 is the end of the stream, and -2 is kTimeoutErr.
abbrev pub seen : LineRead → Readline
seen out = elim out.result [
  | pos zero ↦ eof
  | pos (suc n) ↦ line out.text
  | negsuc zero ↦ failed
  | negsuc (suc zero) ↦ timeout
  | negsuc (suc (suc n)) ↦ failed
]

-- So many calls of SReadline, one behind the other.
unfoldable pub sreadlines : ℕ → Info → ℕ → List Read → List Readline
sreadlines zero srl size reads = []
sreadlines (suc n) srl size reads =
    let out = sreadline srl size reads in seen out ∷ sreadlines n out.info size out.reads
