-- ===== src/Opening/Dial/Accepted.antt =====
-- FTPOpenHost against a server that welcomes it and accepts the login.
use libncftp.Base.{
  ℕ, suc, ◌+◌, ◌-◌, ◌<◌, true, false, [], ◌∷◌, ◌++◌, Option, none, some, Bytes, codes, ℤ, strcmp_eq,
  ◌==◌, ◌||◌, ◌≡◌, refl, ap, ◌∙◌, arith, replicate, length,
}
use libncftp.Conn.{Account, Conn, library_magic, M, then_do, ◌>>=◌, return, modify}
use libncftp.Conn.Errors.{k_no_err, k_err_connect_misc_err, k_err_no_host_specified}
use libncftp.Reply.Frame.{Reply, IsReply, MemoryOk, wire_reply, number_of}
use libncftp.Command.Exchange.{Answers, after_exchange}
use libncftp.Login.{is_anonymous, login_host}
use libncftp.Login.Accepted.{registered, session_of, login_host_accepts}
use libncftp.Opening.Features.Assume.{server_type_net_ware_ftp}
use libncftp.Opening.Features.{query_features}
use libncftp.Opening.Features.Asked.{assumed, after_feat, helped, Tells, query_features_lem}
use libncftp.Opening.Welcome.{up, recognize}
use libncftp.Opening.Welcome.Laws.{after_welcome, others_of, open_control_connection_lem}
use libncftp.Opening.Dial.{
  Dialing, reset_status_variables, allocate_buf, allocate_host, Round, ended, after_login,
  after_connect, dial, may_dial, dial_loop, open_end, open_host,
}

-- The buffer that FTPAllocateHost leaves.
abbrev pub made_buf : Option Bytes → ℕ → Bytes
made_buf (some b) size = replicate (length b) 0
made_buf none size = replicate size 0

-- FTPAllocateHost, where the library is to make the buffer.
allocate_buf_lem :
    (buf : Option Bytes) (c : Conn)
    → MemoryOk c
    → c.do_alloc_buf ≡ true
    → (n : ℕ) × (allocate_buf buf c
        ≡ some (k_no_err, record c { buf = some (made_buf buf c.buf_size); allocs = n }))
unfolding allocate_buf
allocate_buf_lem (some b) c mem own = (c.allocs, refl)
allocate_buf_lem none c mem own = (c.allocs + 1, ground (arith, mem c.allocs))

-- What FTPOpenHost makes of an accepted login: the features are asked for, whatever comes of it.
abbrev pub asks_features : Conn → Option (Option ℤ × Conn)
asks_features s = elim (query_features s) [ none ↦ none | some (_, d) ↦ some (some k_no_err, d) ]

module _ (o : Dialing) (plain : (d : Conn) → o.override d ≡ d) where
  after_connect_lem :
      (s c : Conn)
      → login_host o.passphrase o.anon_password o.unwritten o.login_fuel c ≡ some (some k_no_err, s)
      → after_connect o k_no_err c
        ≡ elim (query_features s) [ none ↦ none | some (_, d) ↦ some (ended k_no_err, d) ]
  unfolding after_connect after_login
  after_connect_lem s c e = rw e (go (query_features s))
    where
      go :
          (out : Option (ℤ × Conn))
          → then_do (λ _. modify o.override >>= λ _. return (ended k_no_err)) out
            ≡ elim out [ none ↦ none | some (_, d) ↦ some (ended k_no_err, d) ]
      go none = refl
      go (some (_, d)) = rw (plain d) refl

  -- The loop ends with a first dial that succeeds.
  first_dial :
      (fuel : ℕ) (round : ℕ → M Round) (out : Option (ℤ × Conn)) (c : Conn)
      → may_dial o.max_dials 0 ≡ true
      → round 0 c ≡ elim out [ none ↦ none | some (_, d) ↦ some (ended k_no_err, d) ]
      → dial_loop o.max_dials round open_end (suc fuel) 0 k_err_connect_misc_err c
        ≡ elim out [ none ↦ none | some (_, d) ↦ some (some k_no_err, d) ]
  unfolding dial_loop open_end
  first_dial fuel round none c may e = rw (may, e) refl
  first_dial fuel round (some (_, d)) c may e = rw (may, e) refl

  -- The loop is reached.
  enters :
      (fuel x : ℕ) (host : Bytes) (c : Conn)
      → c.account.host ≡ x ∷ host
      → strcmp_eq c.magic library_magic ≡ true
      → open_host o fuel c
        ≡ dial_loop o.max_dials
            (dial o)
            open_end
            fuel
            0
            k_err_connect_misc_err
            (reset_status_variables c)
  unfolding open_host
  enters fuel x host c there genuine =
      let loop = dial_loop o.max_dials (dial o) open_end fuel 0 k_err_connect_misc_err in
      let fails =
        some (some k_err_no_host_specified, record c { err_no = k_err_no_host_specified }) in
      rw genuine (
        ap (λ h. elim h [ [] ↦ fails | _ ∷ _ ↦ loop (o.override (reset_status_variables c)) ]) there
        ∙ ap loop (plain (reset_status_variables c)))

  module _ (u : ℕ) (user : Bytes) (b : ℕ) (pass cwd : Bytes) (a : Account) where
    -- The connection once the server has welcomed it: its buffer is `t`.
    abbrev pub welcomed_with : Bytes → Reply → ℕ → Conn → Conn
    welcomed_with t r k c =
        after_welcome r k
          (record (reset_status_variables (registered u user b pass cwd a c)) { buf = some t })

    -- The connection behind the login: `j` and `m` count the requests for memory.
    abbrev pub logged_in_with : Bytes → Reply → ℕ → Reply → ℕ → Reply → ℕ → Conn → Conn
    logged_in_with t r0 k r1 j r2 m c = session_of (
        after_exchange (after_exchange (welcomed_with t r0 k c) (codes "USER " ++ (u ∷ user)) r1 j)
          (codes "PASS " ++ (b ∷ pass)) r2 m)

    -- The server welcomes the client, asks for a name and a password, and accepts them.
    pub record Accepts (n : ℕ) (r0 r1 r2 : Reply) (c : Conn) : Type 0 where
      pub hooked : o.attempts 0 ≡ up (wire_reply r0)
      pub rounds : o.login_fuel ≡ suc (suc (suc n))
      pub memory : MemoryOk c
      pub own_buf : c.do_alloc_buf ≡ true
      pub well : IsReply r0
      pub early : r0.d1 - b'0' < 4
      pub named : is_anonymous (u ∷ user) ≡ false
      pub asks : number_of r1 ≡ 331
      pub lets_in : (number_of r2 == 230 || number_of r2 == 231 || number_of r2 == 202) ≡ true
      pub on_user :
          (t : Bytes) (k : ℕ) → Answers (welcomed_with t r0 k c) (codes "USER " ++ (u ∷ user)) r1
      pub on_pass :
          (t : Bytes) (k j : ℕ)
          → Answers
              (after_exchange (welcomed_with t r0 k c) (codes "USER " ++ (u ∷ user)) r1 j)
              (codes "PASS " ++ (b ∷ pass))
              r2

    -- The first dial.
    dial_lem :
        (n : ℕ) (r0 r1 r2 : Reply) (c : Conn)
        → Accepts n r0 r1 r2 c
        → (k : ℕ) × (j : ℕ) × (m : ℕ) × (dial o 0
              (reset_status_variables (registered u user b pass cwd a c))
            ≡ elim (query_features (logged_in_with (made_buf c.buf c.buf_size) r0 k r1 j r2 m c)) [
              | none ↦ none
              | some (_, d) ↦ some (ended k_no_err, d)
            ])
    unfolding dial allocate_host reset_status_variables
    dial_lem n r0 r1 r2 c h =
        let c0 = reset_status_variables (registered u user b pass cwd a c) in
        let t : Bytes = made_buf c.buf c.buf_size in
        let (i, alloc) = allocate_buf_lem c.buf c0 h.memory h.own_buf in
        let c1 = record c0 { buf = some t; allocs = i } in
        let (k, greeted) = open_control_connection_lem r0 c1 h.memory refl h.well h.early in
        let (j, m, logged) =
          login_host_accepts o.passphrase u user b pass cwd a o.anon_password o.unwritten n r1 r2
            (welcomed_with t r0 k c) h.named h.asks h.lets_in (h.on_user t k) (h.on_pass t k) in
        (
          k,
          j,
          m,
          rw (alloc, h.hooked, greeted)
              (after_connect_lem (logged_in_with t r0 k r1 j r2 m c) (welcomed_with t r0 k c) (
                ap
                  (λ f.
                    login_host o.passphrase o.anon_password o.unwritten f (welcomed_with t r0 k c))
                  h.rounds
                ∙ logged)),
        )

    -- What is left of FTPOpenHost is what FTPQueryFeatures does.
    pub open_host-Accepts :
        (n fuel x : ℕ) (host : Bytes) (r0 r1 r2 : Reply) (c : Conn)
        → a.host ≡ x ∷ host
        → strcmp_eq c.magic library_magic ≡ true
        → may_dial o.max_dials 0 ≡ true
        → Accepts n r0 r1 r2 c
        → (k : ℕ) × (j : ℕ) × (m : ℕ) × (open_host o (suc fuel) (registered u user b pass cwd a c)
            ≡ asks_features (logged_in_with (made_buf c.buf c.buf_size) r0 k r1 j r2 m c))
    open_host-Accepts n fuel x host r0 r1 r2 c there genuine may h =
        let (k, j, m, e) = dial_lem n r0 r1 r2 c h in
        (
          k,
          j,
          m,
          enters (suc fuel) x host (registered u user b pass cwd a c) there genuine
              ∙ first_dial fuel (dial o)
                  (query_features (logged_in_with (made_buf c.buf c.buf_size) r0 k r1 j r2 m c))
                  (reset_status_variables (registered u user b pass cwd a c)) may e,
        )

    -- Where the first dial finds a server that welcomes the client, asks for the name and the password
    -- and accepts them, is not NetWare's by its welcome, and answers FEAT and HELP SITE as `Tells` says,
    -- FTPOpenHost, with a bound that lets it dial, returns kNoErr with that one dial: the connection is
    -- open and logged in, and the block has what FEAT and HELP SITE tell. The library makes the buffer
    -- and has memory, no firewall is in use, the account has a host, a name that is not anonymous's and
    -- a password, the directory cache is there and the starting directory is not asked for, and no
    -- feature is set by hand.
    pub open_host_opens :
        (n fuel x : ℕ) (host : Bytes) (r0 r1 r2 r s : Reply) (c : Conn)
        → a.host ≡ x ∷ host
        → strcmp_eq c.magic library_magic ≡ true
        → may_dial o.max_dials 0 ≡ true
        → Accepts n r0 r1 r2 c
        → (recognize r0.first (others_of r0) == server_type_net_ware_ftp) ≡ false
        → ((k j m : ℕ)
            → Tells r s (assumed (logged_in_with (made_buf c.buf c.buf_size) r0 k r1 j r2 m c)))
        → (k : ℕ) × (j : ℕ) × (m : ℕ) × (i : ℕ) × (l : ℕ) × (open_host o
              (suc fuel)
              (registered u user b pass cwd a c)
            ≡ some (
              some k_no_err,
              after_exchange
                  (helped s (
                    after_feat r i
                      (assumed (logged_in_with (made_buf c.buf c.buf_size) r0 k r1 j r2 m c))))
                  (codes "HELP SITE")
                  s
                  l,
            ))
    unfolding reset_status_variables
    open_host_opens n fuel x host r0 r1 r2 r s c there genuine may h other tells =
        let (k, j, m, e) = open_host-Accepts n fuel x host r0 r1 r2 c there genuine may h in
        let c1 = logged_in_with (made_buf c.buf c.buf_size) r0 k r1 j r2 m c in
        let (i, l, asked) = query_features_lem r s c1 genuine other (tells k j m) in
        (
          k,
          j,
          m,
          i,
          l,
          e ∙ ap (λ o. elim o [ none ↦ none | some (_, d) ↦ some (some k_no_err, d) ]) asked,
        )
