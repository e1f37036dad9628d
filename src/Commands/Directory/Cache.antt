-- ===== src/Commands/Directory/Cache.antt =====
-- The directory cache: filled by the reply to PWD, used without traffic, emptied by FTPChdir.
use libncftp.Base.{
  ℕ, suc, ◌+◌, ◌-◌, ◌<◌, ◌≤◌, true, false, [], ◌∷◌, ◌++◌, List, Option, none, some, Bytes, codes,
  ◌==◌, ℤ, pos, negsuc, is_neg, ◌≡◌, ◌≢◌, refl, ◌∙◌, ◌⊎◌, inl, inr, arith, Lacks, length,
  length-set, set, get_or, cstr, strcmp_eq, Bool-cases,
}
use libncftp.Conn.{Conn, ◌>>=◌, library_magic}
use libncftp.Conn.Errors.{k_no_err}
use libncftp.Strn.Fits.{Fits, strncpy-Fits}
use libncftp.Strn.{strncpy}
use libncftp.Reply.{init_response}
use libncftp.Reply.Frame.{Reply, Middle, texts_more, texts_of}
use libncftp.Reply.Outcome.{StackEnds}
use libncftp.Command.{ftp_cmd}
use libncftp.Command.Framing.{crlf, after_write}
use libncftp.Command.Exchange.{
  Answers, after_exchange, r_cmd-Answers, done_with_reply, CommandEnds, replied, failed,
  ftp_cmd-CommandEnds,
}
use libncftp.Commands.Names.Laws.{class_of}
use libncftp.Commands.Ask.{Answers-allocs}
use libncftp.Commands.Directory.{
  array, invalidate, cd_command, chdir_result, chdir, copy_out, copy_cache, store_cwd, truncated,
  check_length, use_pwd, ask_pwd, get_cwd_to, get_cwd, pwd_text,
}

pub texts_of_first : (r : Reply) → (others : List Bytes) × (texts_of r ≡ r.first ∷ others)
texts_of_first r = go r.more refl
  where
    go :
        (m : Option (List Middle × Bytes))
        → r.more ≡ m
        → (others : List Bytes) × (texts_of r ≡ r.first ∷ others)
    go none e = ([], ground arith)
    go (some (ms, t)) e = (texts_more ms t, ground (arith, e))

-- Both copies of a directory that fits.
store_cwd_lem :
    (a b dir : Bytes) (c : Conn)
    → Lacks 0 dir
    → c.cwd ≡ some b
    → length dir + 1 < length a
    → length dir + 1 < length b
    → (out : Bytes) × (b' : Bytes) × Fits a dir out
      × Fits b dir b'
      × (store_cwd (array a) (some dir) c ≡ some (out, record c { cwd = some b' }))
unfolding store_cwd copy_out copy_cache
store_cwd_lem a b dir c nul cached ha hb =
    let (out, fa) = strncpy-Fits a dir nul ha in
    let (b', fb) = strncpy-Fits b dir nul hb in
    (out, b', fa, fb, ground (arith, fa.copied, fb.copied))

truncated-Fits :
    (a dir out : Bytes)
    → Fits a dir out
    → length dir + 1 < length a
    → truncated (some out) ≡ some false
unfolding truncated
truncated-Fits a dir out f h = ground (arith, f.spare, f.size)

use_pwd_lem :
    (a b dir text : Bytes) (others : List Bytes) (c : Conn)
    → pwd_text text ≡ some dir
    → Lacks 0 dir
    → c.cwd ≡ some b
    → length dir + 1 < length a
    → length dir + 1 < length b
    → (out : Bytes) × (b' : Bytes) × Fits a dir out
      × Fits (set (set b 0 0) (length b - 2) 0) dir b'
      × (use_pwd (array a) (pos 2) (text ∷ others) c
          ≡ some ((k_no_err, out), record c { cwd = some b' }))
unfolding use_pwd
use_pwd_lem a b dir text others c found nul cached ha hb =
    let b0 = set (set b 0 0) (length b - 2) 0 in
    let size : length b0 ≡ length b =
      omega (arith, length-set b 0 0, length-set (set b 0 0) (length b - 2) 0) in
    let (out, b', fa, fb, e) =
      store_cwd_lem a b0 dir (record c { cwd = some b0 }) nul refl ha (omega arith) in
    (out, b', fa, fb, ground (arith, found, e))

-- What the connection knows of its directory after FTPChdir.
abbrev pub DirectoryChanged : Conn → Option (ℤ × Conn) → Type 0
DirectoryChanged c none = ⊥
DirectoryChanged c (some (result, d)) =
    ((result ≡ k_no_err) × (d.cwd ≡ invalidate c.cwd))
    ⊎ ((is_neg result ≡ true) × ((d.cwd ≡ c.cwd) ⊎ (d.cwd ≡ none)))

chdir_result-Changed :
    (command : Bytes) (c : Conn) (out : Option (ℤ × Conn))
    → ftp_cmd command c ≡ out
    → CommandEnds c out
    → DirectoryChanged c ((do result ← ftp_cmd command; chdir_result result) c)
unfolding chdir_result
chdir_result-Changed command c out e (replied class str num ll sent i n small eq) =
    elim (Bool-cases (class == 2)) [
      | inl two ↦ rw (e ∙ eq, two) (inl (refl, refl))
      | inr other ↦ rw (e ∙ eq, other) (inr (refl, inl refl))
    ]
chdir_result-Changed command c out e (failed (pos m) d negative kept eq) = absurd (cc)
chdir_result-Changed command c out e (failed (negsuc m) d negative kept eq) =
    rw (e ∙ eq) (inr (refl, kept.cwd_kept))

-- Where the stack has a NUL behind the fourth byte of GetResponse's line buffer, and whatever the
-- server does, FTPChdir to a path that is not empty ends, without a fault, in one of two
-- ways: kNoErr with the cached directory emptied, so that the next FTPGetCWD asks the server; or a
-- negative result with the cache as it was, or released because the connection was shut down. The
-- magic of the block is the library's.
pub chdir-DirectoryChanged :
    (b : ℕ) (dir : Bytes) (c : Conn)
    → strcmp_eq c.magic library_magic ≡ true
    → StackEnds c.junk
    → DirectoryChanged c (chdir (some (b ∷ dir)) c)
unfolding chdir
chdir-DirectoryChanged b dir c magic stack = rw magic (
    chdir_result-Changed (cd_command (b ∷ dir)) c _ refl
      (ftp_cmd-CommandEnds (cd_command (b ∷ dir)) c stack))

check_length_lem :
    (a b out : Bytes) (c : Conn)
    → c.cwd ≡ some b
    → truncated (some b) ≡ some false
    → truncated (some out) ≡ some false
    → check_length (array a) k_no_err out c ≡ some ((k_no_err, out), c)
unfolding check_length
check_length_lem a b out c cached whole uncut = ground (arith, cached, whole, uncut)

-- A cache that is not empty answers without traffic.
get_cwd_cached :
    (a b dir : Bytes) (c : Conn)
    → strcmp_eq c.magic library_magic ≡ true
    → c.cwd ≡ some b
    → cstr b ≡ dir
    → Lacks 0 dir
    → get_or b 0 0 ≢ 0
    → get_or b (length b - 2) 0 ≡ 0
    → 2 ≤ length b
    → length dir + 1 < length a
    → (out : Bytes) × (cstr out ≡ dir) × (get_cwd (array a) c ≡ some ((k_no_err, out), c))
unfolding get_cwd get_cwd_to copy_out
get_cwd_cached [] b dir c magic cached text nul ne spare size fits = elim fits [ ]
get_cwd_cached (x ∷ a) b dir c magic cached text nul ne spare size fits =
    let (out, f) = strncpy-Fits (x ∷ a) dir nul fits in
    let copied : strncpy (x ∷ a) dir (suc (length a)) ≡ some out = f.copied in
    let cut = truncated-Fits (x ∷ a) dir out f fits in
    let whole : truncated (some b) ≡ some false = unfold truncated in ground (arith, spare) in
    let checked = check_length_lem (x ∷ a) b out c cached whole cut in
    (out, f.text_is, ground (arith, cached, copied, checked))

-- An empty cache has the server asked.
get_cwd_asks :
    (a b b' out : Bytes) (c d : Conn)
    → strcmp_eq c.magic library_magic ≡ true
    → c.cwd ≡ some b
    → get_or b 0 0 ≡ 0
    → 0 < length a
    → ask_pwd (array a) c ≡ some ((k_no_err, out), d)
    → d.cwd ≡ some b'
    → truncated (some out) ≡ some false
    → truncated (some b') ≡ some false
    → get_cwd (array a) c ≡ some ((k_no_err, out), d)
unfolding get_cwd get_cwd_to
get_cwd_asks [] b b' out c d magic cached empty size asked stored uncut whole = elim size [ ]
get_cwd_asks (x ∷ a) b b' out c d magic cached empty size asked stored uncut whole =
    let checked = check_length_lem (x ∷ a) b' out d stored whole uncut in
    ground (arith, cached, asked, checked)

module _ (c : Conn) (r : Reply) (a b dir : Bytes) (answers : Answers c (codes "PWD") r)
    (class : class_of r ≡ 2) (quoted : pwd_text r.first ≡ some dir) (nul : Lacks 0 dir)
    (named : get_or dir 0 0 ≢ 0) (empty : c.cwd ≡ some b) (unknown : get_or b 0 0 ≡ 0)
    (room : length dir + 1 < length a) (cache_room : length dir + 1 < length b) where
  ask_pwd_lem :
      (n : ℕ) × (out : Bytes) × (b' : Bytes) × Fits a dir out
      × Fits (set (set b 0 0) (length b - 2) 0) dir b'
      × (ask_pwd (array a) c
          ≡ some ((k_no_err, out), record (after_exchange c (codes "PWD") r n) { cwd = some b' }))
  unfolding ask_pwd init_response
  ask_pwd_lem =
      let c1 = record c { allocs = c.allocs + 1 } in
      let (n, e) =
        r_cmd-Answers c1 (codes "PWD") r
          (Answers-allocs c (codes "PWD") r (c.allocs + 1) answers) in
      let (others, texts) = texts_of_first r in
      let d = record (after_write c1 (codes "PWD" ++ crlf)) { allocs = n; input = [] } in
      let (out, b', fa, fb, u) =
        use_pwd_lem a b dir r.first others d quoted nul empty room cache_room in
      let u' : use_pwd (array a) (pos (class_of r)) (texts_of r) d
          ≡ some ((k_no_err, out), record d { cwd = some b' }) =
        rw (class, texts) u in
      let mem : c.malloc c.allocs ≡ true = answers.memory c.allocs in
      (n, out, b', fa, fb, rw (mem, e, u', done_with_reply r) refl)

  -- Where the cache is empty, the server answers PWD with a positive completion that quotes the
  -- directory `dir`, with no NUL in it, and `dir` fits the cache and the caller's array with a byte to
  -- spare: FTPGetCWD sends the one command PWD, gives `dir` to the caller, and stores it in the cache;
  -- a second FTPGetCWD, into any array that it fits, gives `dir` again and leaves the connection as it
  -- is, without traffic.
  pub get_cwd_lem :
      (a' : Bytes)
      → length dir + 1 < length a'
      → (n : ℕ) × (out : Bytes) × (b' : Bytes) × (cstr out ≡ dir)
        × (get_cwd (array a) c
            ≡ some ((k_no_err, out), record (after_exchange c (codes "PWD") r n) { cwd = some b' }))
        × ((out' : Bytes) × (cstr out' ≡ dir)
            × (get_cwd (array a') (record (after_exchange c (codes "PWD") r n) { cwd = some b' })
                ≡ some (
                  (k_no_err, out'),
                  record (after_exchange c (codes "PWD") r n) { cwd = some b' },
                )))
  get_cwd_lem a' fits =
      let (n, out, b', fa, fb, e) = ask_pwd_lem in
      let d = record (after_exchange c (codes "PWD") r n) { cwd = some b' } in
      let size : length b' ≡ length b =
        fb.size ∙ omega (arith, length-set b 0 0, length-set (set b 0 0) (length b - 2) 0) in
      let cache_size : length b' ≡ length (set (set b 0 0) (length b - 2) 0) = fb.size in
      let whole =
        truncated-Fits (set (set b 0 0) (length b - 2) 0) dir b' fb
          (rw (← cache_size, size) cache_room) in
      let uncut = truncated-Fits a dir out fa room in
      (
        n,
        out,
        b',
        fa.text_is,
        get_cwd_asks a b b' out c d answers.genuine empty unknown (omega arith) e refl uncut whole,
        get_cwd_cached a' b' dir d answers.genuine refl fb.text_is nul (rw fb.start named) fb.spare
            (omega (arith, size, cache_room)) fits,
      )
