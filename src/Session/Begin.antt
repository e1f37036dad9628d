-- ===== src/Session/Begin.antt =====
-- A session from FTPInitConnectionInfo2 of libncftp/open.c on.
use libncftp.Base.{
  zero, suc, ◌≤◌, [], ◌∷◌, length, length-replicate, replicate, c_string, arith, Bool-cases, inl,
  inr, ℕ, Bool, true, false, List, Option, none, some, Bytes, All, ℤ, ◌==◌, ◌||◌, strcmp_eq, ◌≡◌,
  refl, ap, ◌∙◌,
}
use libncftp.Conn.{Account, Conn, not_available, ◌>>=◌, library_magic}
use libncftp.Conn.Errors.{k_no_err}
use libncftp.Reply.Frame.{Reply, MemoryOk}
use libncftp.Reply.Outcome.{StackEnds}
use libncftp.Login.Accepted.{registered}
use libncftp.Commands.Probe.{server_type_ncftpd}
use libncftp.Commands.Facts.{is_not_available}
use libncftp.Opening.Features.Assume.{
  when, for_microsoft, for_net_ware, for_older, for_wu_ftpd, for_ncftpd, assume_features,
  server_type_microsoft_ftp, server_type_net_ware_ftp, server_type_wu_ftpd, server_type_pro_ftpd,
  server_type_dgux_ftp, server_type_pyramid, server_type_ibm_ftpcs,
}
use libncftp.Opening.Features.{query_features, query_server}
use libncftp.Opening.Dial.{Dialing, may_dial, open_host, reset_status_variables}
use libncftp.Opening.Dial.Accepted.{
  Accepts, made_buf, logged_in_with, asks_features, open_host-Accepts,
}
use libncftp.Opening.Init.{fresh_block, zeroed, init_connection_info2}
use libncftp.Session.Ready.{Ready, Room, Roomy, Settled, Safe, ran}
use libncftp.Session.Calls.{Outside, Sound, Call, Sensible, perform_all, perform_all-Ready}

-- The block that FTPInitConnectionInfo2 leaves is ready.
pub init_connection_info2-Ready :
    (default_port : Bytes) (buf : Option Bytes) (buf_size : ℕ) (c : Conn)
    → MemoryOk c
    → StackEnds c.junk
    → Roomy buf
    → (buf_size == 0) ≡ false
    → Safe (λ e. e ≡ k_no_err) (init_connection_info2 library_magic default_port buf buf_size c)
unfolding init_connection_info2 fresh_block zeroed strcmp_eq
init_connection_info2-Ready default_port buf buf_size c mem stack roomy some_room =
    let fresh : Ready (fresh_block default_port buf buf_size c) = record {
      genuine = refl;
      memory = mem;
      stack = stack;
      present = λ is_open. absurd (cc);
      sized = tt;
      roomy = roomy;
    } in
    rw some_room (ran k_no_err (fresh_block default_port buf buf_size c) refl fresh refl)

-- From a block that FTPInitConnectionInfo2 has initialized, any sequence of calls with sensible
-- arguments runs to its end, whatever the server sends and whenever it closes the connection: no call
-- reads through NULL, behind an array or without end, each result is kNoErr or a negative error, and
-- the block is ready for more. Memory is at hand; the stack has a NUL behind the fourth byte of
-- GetResponse's line buffer; the size of the buffer is not 0, and a buffer that the
-- application gives has two bytes and a NUL. What sensible arguments are, and what is taken of the
-- data connection, is said above `perform_all-Ready`.
pub begun-Ready :
    (default_port : Bytes) (buf : Option Bytes) (buf_size : ℕ) (out : Outside) (calls : List Call)
    (c : Conn)
    → MemoryOk c
    → StackEnds c.junk
    → Roomy buf
    → (buf_size == 0) ≡ false
    → Sound out
    → All Sensible calls
    → (results : List ℤ) × (d : Conn) × ((init_connection_info2 library_magic default_port buf
              buf_size
            >>= λ _. perform_all out calls)
          c
        ≡ some (results, d))
      × All Settled results
      × Ready d
begun-Ready default_port buf buf_size out calls c mem stack roomy some_room s h =
    elim (init_connection_info2-Ready default_port buf buf_size c mem stack roomy some_room) [
      | ran e d fine ready eq ↦
          let (results, d', eq', settled, ready') = perform_all-Ready out calls d s h ready in
          (results, d', rw (eq, eq'), settled, ready')
    ]

zeros-Room : (n : ℕ) → 2 ≤ n → Room (replicate n 0)
unfolding c_string
zeros-Room zero h = elim h [ ]
zeros-Room (suc n) h = (omega (arith, length-replicate {A = ℕ} (suc n) 0), ([], refl))

abbrev pub buf_size_of : Option Bytes → ℕ → ℕ
buf_size_of (some b) size = length b
buf_size_of none size = size

made_buf-Room :
    (buf : Option Bytes) (size : ℕ) → 2 ≤ buf_size_of buf size → Room (made_buf buf size)
made_buf-Room (some b) size h = zeros-Room (length b) h
made_buf-Room none size h = zeros-Room size h

-- A setting that is made or not.
when-Ready :
    (test : Bool) (change : Conn → Conn) (c : Conn)
    → (Ready c → Ready (change c))
    → Ready c
    → Ready (when test change c)
when-Ready true change c keeps r = keeps r
when-Ready false change c keeps r = r

when_feat :
    (test : Bool) (change : Conn → Conn) (c : Conn)
    → (change c).features.has_feat ≡ c.features.has_feat
    → (when test change c).features.has_feat ≡ c.features.has_feat
when_feat true change c keeps = keeps
when_feat false change c keeps = refl

-- What FTPQueryFeatures takes of a server by its type keeps the block ready, and does not touch
-- hasFEAT.
Unasked : Conn → Conn → Type 0
Unasked c d = (Ready c → Ready d) × (d.features.has_feat ≡ c.features.has_feat)

settings-Unasked :
    (t1 t2 t3 t4 : Bool) (c : Conn)
    → Unasked c (
        when t1 for_wu_ftpd (
          when t2 for_ncftpd
            (when t3 for_older (when t4 (λ d. record d { has_nlst_a = not_available }) c))))
unfolding Unasked
settings-Unasked t1 t2 t3 t4 c =
    let pro : Conn → Conn = λ d. record d { has_nlst_a = not_available } in
    let c1 = when t4 pro c in
    let c2 = when t3 for_older c1 in
    let c3 = when t2 for_ncftpd c2 in
    (
      λ r.
          when-Ready t1 for_wu_ftpd c3 (λ r. r)
            (when-Ready t2 for_ncftpd c2 (λ r. r)
              (when-Ready t3 for_older c1 (λ r. r) (when-Ready t4 pro c (λ r. r) r))),
      when_feat t1 for_wu_ftpd c3 refl
          ∙ when_feat t2 for_ncftpd c2 refl
          ∙ when_feat t3 for_older c1 refl
          ∙ when_feat t4 pro c refl,
    )

assume_features-Unasked : (c : Conn) → Unasked c (assume_features c)
unfolding assume_features
assume_features-Unasked c =
    let type = c.server_type in
    settings-Unasked (type == server_type_wu_ftpd) (type == server_type_ncftpd)
      (type == server_type_dgux_ftp || type == server_type_pyramid || type == server_type_ibm_ftpcs)
      (type == server_type_pro_ftpd) c

-- A server that is known to have no FEAT is not asked.
query_features-Ready :
    (c : Conn)
    → Ready c
    → is_not_available c.features.has_feat ≡ true
    → Safe (λ e. e ≡ k_no_err) (query_features c)
unfolding query_features query_server Unasked
query_features-Ready c r silent =
    let m = c.server_type == server_type_microsoft_ftp in
    let d = when m for_microsoft c in
    let rd = when-Ready m for_microsoft c (λ r. r) r in
    let (keeps, same) = assume_features-Unasked d in
    let feat = same ∙ when_feat m for_microsoft c refl in
    elim (Bool-cases (c.server_type == server_type_net_ware_ftp)) [
      | inl net_ware ↦ rw (r.genuine, net_ware) (ran k_no_err (for_net_ware d) refl rd refl)
      | inr other ↦
          rw (r.genuine, other, feat, silent)
            (ran k_no_err (assume_features d) refl (keeps rd) refl)
    ]

-- Where a server welcomes the client and accepts its name and password with the first dial, and FEAT is
-- known not to be available, FTPOpenHost and then any sequence of calls with sensible arguments run
-- to their end, whatever the server sends behind the login and whenever it closes the connection: no
-- call reads through NULL, behind an array or without end, each result is kNoErr or a negative error,
-- and the block is ready for more. The conditions are those of `open_host-Accepts` and of
-- `perform_all-Ready`, the NUL behind the fourth byte of GetResponse's line buffer among them; the
-- directory cache and the working buffer have two bytes.
pub opened-Ready :
    (o : Dialing) (plain : (d : Conn) → o.override d ≡ d) (u : ℕ) (user : Bytes) (b : ℕ)
    (pass cwd : Bytes) (a : Account) (n fuel x : ℕ) (host : Bytes) (r0 r1 r2 : Reply) (c : Conn)
    (out : Outside) (calls : List Call)
    → a.host ≡ x ∷ host
    → strcmp_eq c.magic library_magic ≡ true
    → may_dial o.max_dials 0 ≡ true
    → Accepts o plain u user b pass cwd a n r0 r1 r2 c
    → 2 ≤ length cwd
    → 2 ≤ buf_size_of c.buf c.buf_size
    → is_not_available c.features.has_feat ≡ true
    → StackEnds c.junk
    → Sound out
    → All Sensible calls
    → (results : List ℤ) × (d : Conn) × ((open_host o (suc fuel) >>= λ _. perform_all out calls)
          (registered u user b pass cwd a c)
        ≡ some (results, d))
      × All Settled results
      × Ready d
unfolding reset_status_variables
opened-Ready o plain u user b pass cwd a n fuel x host r0 r1 r2 c out calls there genuine may h big
      room silent stack sound sensible =
    let (k, j, m, e) =
      open_host-Accepts o plain u user b pass cwd a n fuel x host r0 r1 r2 c there genuine may h in
    let t = made_buf c.buf c.buf_size in
    let s = logged_in_with o plain u user b pass cwd a t r0 k r1 j r2 m c in
    let ready : Ready s = record {
      genuine = genuine;
      memory = h.memory;
      stack = stack;
      present = λ is_open. tt;
      sized = big;
      roomy = made_buf-Room c.buf c.buf_size room;
    } in
    elim (query_features-Ready s ready silent) [
      | ran e' d fine rd asked ↦
          let (results, d', eq', settled, ready') =
            perform_all-Ready out calls d sound sensible rd in
          let answered : asks_features s ≡ some (some k_no_err, d) =
            ap (λ o. elim o [ none ↦ none | some (_, d) ↦ some (some k_no_err, d) ]) asked in
          (results, d', rw (e ∙ answered, eq'), settled, ready')
    ]
