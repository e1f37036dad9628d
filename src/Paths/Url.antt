-- ===== src/Paths/Url.antt =====
-- URLCopyToken of libncftp/u_decodeurl.c.
--
-- `src` is the memory from the token on, and reading behind its end is a fault, `none`, as is writing
-- behind the end of the array. `scan` is `sscanf(h, "%x", &hc)` on the text in `h`: `none` where it
-- fails or leaves `hc` as it was. The test `src < slim + 2` holds in every round, so it is not made.
pub mod Laws
use libncftp.Base.{
  ℕ, zero, suc, ◌-◌, ◌%◌, Bool, true, false, ◌||◌, [], ◌∷◌, Option, none, some, Bytes,
  if◌then◌else◌, ◌==◌, cstr,
}
use libncftp.Strn.{behind, poke}

-- The codes that are not allowed in a URL.
abbrev pub banned : ℕ → Bool
banned hc = hc == 0 || hc == 10 || hc == 13 || hc == 7 || hc == 8 || hc == 11 || hc == 12

-- `if (dst < dlim) *dst++ = hc;`, with the rest of the copy for one byte less of room and for the same.
pub store_hex : ℕ → ℕ → Bytes → (ℕ → Bytes → Option Bytes) → Option Bytes
store_hex hc zero dst rest = rest zero dst
store_hex hc (suc room) [] rest = none
store_hex hc (suc room) (x ∷ dst) rest = behind (hc % 256) (rest room dst)

-- What is done with the two characters behind a percent sign.
pub decode_hex : Option ℕ → ℕ → Bytes → (ℕ → Bytes → Option Bytes) → Option Bytes
decode_hex none room dst rest = rest room dst
decode_hex (some hc) room dst rest = if banned hc then poke 0 dst else store_hex hc room dst rest

-- `*dst++ = c;`
pub store_plain : ℕ → ℕ → Bytes → (ℕ → Bytes → Option Bytes) → Option Bytes
store_plain c room [] rest = none
store_plain c room (x ∷ dst) rest = behind c (rest (room - 1) dst)

-- The loop, for the `n` bytes that are left of the token and the `room` before `dlim`.
pub copy_token : (Bytes → Option ℕ) → Bytes → ℕ → ℕ → Bytes → Option Bytes
copy_token scan src zero room dst = poke 0 dst
copy_token scan [] (suc n) room dst = none
copy_token scan (c ∷ []) (suc n) room dst =
    if c == 0
    then poke 0 dst
    else if c == b'%'
    then none
    else store_plain c room dst (copy_token scan [] n)
copy_token scan (c ∷ a ∷ []) (suc n) room dst =
    let rest = copy_token scan (a ∷ []) n in
    if c == 0 then poke 0 dst else if c == b'%' then none else store_plain c room dst rest
copy_token scan (c ∷ a ∷ b ∷ src) (suc n) room dst =
    let rest = copy_token scan (a ∷ b ∷ src) n in
    let behind_hex = copy_token scan src (n - 2) in
    if c == 0
    then poke 0 dst
    else if c == b'%'
    then decode_hex (scan (cstr (a ∷ b ∷ []))) room dst behind_hex
    else store_plain c room dst rest

-- URLCopyToken
unfoldable pub url_copy_token : (Bytes → Option ℕ) → Bytes → ℕ → Bytes → ℕ → Option Bytes
unfolding copy_token store_hex decode_hex store_plain
url_copy_token scan dst dsize src howmuch = copy_token scan src howmuch (dsize - 1) dst
