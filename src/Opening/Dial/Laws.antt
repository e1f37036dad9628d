-- ===== src/Opening/Dial/Laws.antt =====
-- FTPOpenHostNoLogin ends, and the loop over the dials gives up.
use libncftp.Base.{
  ℕ, zero, suc, ◌+◌, ◌-◌, ◌<◌, Bool, true, false, [], ◌∷◌, Option, none, some, Bytes, ℤ, pos,
  is_neg, int_eq, ltb, strcmp_eq, ◌≡◌, refl, ◌⊎◌, inl, inr, ◌∙◌, arith, Bool-cases, if◌then◌else◌,
  replicate, length,
}
use libncftp.Conn.{Conn, library_magic, return}
use libncftp.Conn.Errors.{
  k_no_err, k_err_connect_misc_err, k_err_malloc_failed, k_err_bad_parameter, k_err_bad_magic,
}
use libncftp.Reply.Outcome.{StackEnds}
use libncftp.Command.Exchange.{negative_ne}
use libncftp.Opening.Welcome.{Attempt, open_control_connection}
use libncftp.Opening.Welcome.Laws.{Dialled, through, not_through, open_control_connection-Dialled}
use libncftp.Opening.Dial.{
  allocate_buf, allocate_host, Round, again, ended, returned, redials_no_login, dial_no_login,
  dial_loop, open_host_no_login,
}

-- How a round of FTPOpenHostNoLogin ends.
data Rung (junk : Bytes) (out : Option (Round × Conn)) : Type 0 where
  hooked :
      (d : Conn)
      → d.connected ≡ true
      → d.ctrl_open ≡ true
      → out ≡ some (ended k_no_err, d)
      → Rung junk out
  missed :
      (e : ℤ) (d : Conn)
      → is_neg e ≡ true
      → d.ctrl_open ≡ false
      → d.junk ≡ junk
      → ((out ≡ some (again e, d)) ⊎ (out ≡ some (returned e, d)))
      → Rung junk out

-- FTPAllocateHost leaves the sockets alone.
data Allocated (out : Option (ℤ × Conn)) (is_open : Bool) (junk : Bytes) : Type 0 where
  made :
      (d : Conn)
      → d.ctrl_open ≡ is_open
      → d.junk ≡ junk
      → out ≡ some (k_no_err, d)
      → Allocated out is_open junk
  unmade :
      (e : ℤ) (d : Conn)
      → is_neg e ≡ true
      → d.ctrl_open ≡ is_open
      → d.junk ≡ junk
      → out ≡ some (e, d)
      → Allocated out is_open junk

allocate_buf-Allocated :
    (b : Option Bytes) (c : Conn) → Allocated (allocate_buf b c) c.ctrl_open c.junk
unfolding allocate_buf
allocate_buf-Allocated (some b) c =
    made (record c { buf = some (replicate (length b) 0) }) refl refl refl
allocate_buf-Allocated none c = elim (Bool-cases c.do_alloc_buf) [
  | inr theirs ↦
      let d = record c { do_alloc_buf = false; err_no = k_err_bad_parameter } in
      rw theirs (unmade k_err_bad_parameter d refl refl refl refl)
  | inl ours ↦
      let d = record c { do_alloc_buf = true; allocs = c.allocs + 1 } in
      elim (Bool-cases (c.malloc c.allocs)) [
        | inl fine ↦
            rw (ours, fine) (made (record d { buf = some (replicate c.buf_size 0) }) refl refl refl)
        | inr bad ↦
            let d' = record d { err_no = k_err_malloc_failed } in
            rw (ours, bad) (unmade k_err_malloc_failed d' refl refl refl refl)
      ]
]

-- What a round makes of OpenControlConnection.
verdict : ℤ × Conn → Option (Round × Conn)
verdict (result, d) = some (
  if int_eq result k_no_err
      then ended result
      else if redials_no_login result
      then again result
      else returned result,
  d,
)

verdict-Rung :
    (junk : Bytes) (out : Option (ℤ × Conn))
    → Dialled junk out
    → (r : ℤ × Conn) × (out ≡ some r) × Rung junk (verdict r)
unfolding verdict
verdict-Rung junk out (through d marked is_open eq) =
    ((k_no_err, d), eq, hooked d marked is_open refl)
verdict-Rung junk out (not_through e d negative closed kept eq) = (
  (e, d),
  eq,
  rw (negative_ne e negative) (elim (Bool-cases (redials_no_login e)) [
    | inl retry ↦ rw retry (missed e d negative closed kept (inl refl))
    | inr give_up ↦ rw give_up (missed e d negative closed kept (inr refl))
  ]),
)

dial_no_login-Rung :
    (attempts : ℕ → Attempt) (n : ℕ) (c : Conn)
    → c.ctrl_open ≡ false
    → StackEnds c.junk
    → Rung c.junk (dial_no_login attempts n c)
unfolding dial_no_login allocate_host verdict
dial_no_login-Rung attempts n c closed stack = elim (allocate_buf-Allocated c.buf c) [
  | unmade e d negative same kept eq ↦
      rw (eq, negative) (missed e d negative (same ∙ closed) kept (inr refl))
  | made d same kept eq ↦
      let dialled : Dialled c.junk (open_control_connection (attempts n) d) =
        rw (← kept)
          (open_control_connection-Dialled (attempts n) d (same ∙ closed) (rw kept stack)) in
      let (r, e, rung) = verdict-Rung c.junk _ dialled in rw (eq, e) rung
]

-- How FTPOpenHostNoLogin ends.
pub data Opened (out : Option (Option ℤ × Conn)) : Type 0 where
  opened :
      (d : Conn)
      → d.connected ≡ true
      → d.ctrl_open ≡ true
      → out ≡ some (some k_no_err, d)
      → Opened out
  unopened :
      (e : ℤ) (d : Conn)
      → is_neg e ≡ true
      → d.ctrl_open ≡ false
      → out ≡ some (some e, d)
      → Opened out

module _ (attempts : ℕ → Attempt) (m : ℕ) where
  less : (n fuel : ℕ) → ltb n m ≡ true → m - n < suc fuel → m - (n + 1) < fuel
  less n fuel more enough = ground arith

  dial_loop-Opened :
      (fuel n : ℕ) (result : ℤ) (c : Conn)
      → is_neg result ≡ true
      → c.ctrl_open ≡ false
      → StackEnds c.junk
      → m - n < fuel
      → Opened (dial_loop (pos m) (dial_no_login attempts) return fuel n result c)
  unfolding dial_loop
  dial_loop-Opened zero n result c negative closed stack enough = elim enough [ ]
  dial_loop-Opened (suc fuel) n result c negative closed stack enough =
      elim (Bool-cases (ltb n m)) [
        | inr over ↦ rw over (unopened result c negative closed refl)
        | inl more ↦ elim (dial_no_login-Rung attempts n c closed stack) [
          | hooked d marked is_open eq ↦ rw (more, eq) (opened d marked is_open refl)
          | missed e d neg' closed' kept (inl eq) ↦
              rw (more, eq)
                (dial_loop-Opened fuel (n + 1) e d neg' closed' (rw kept stack)
                  (less n fuel more enough))
          | missed e d neg' closed' kept (inr eq) ↦ rw (more, eq) (unopened e d neg' closed' refl)
        ]
      ]

-- Where `maxDials` is not negative, no connection is open before the call, and the stack has a NUL
-- behind the fourth byte of GetResponse's line buffer, FTPOpenHostNoLogin ends, without a fault,
-- whatever the network and the server do: with kNoErr and an open connection that is marked as
-- connected, or with a negative error and no connection. Any number of rounds of fuel that is greater
-- than `maxDials` is enough.
pub open_host_no_login-Opened :
    (attempts : ℕ → Attempt) (m fuel : ℕ) (c : Conn)
    → c.ctrl_open ≡ false
    → StackEnds c.junk
    → m < fuel
    → Opened (open_host_no_login attempts (pos m) fuel c)
unfolding open_host_no_login
open_host_no_login-Opened attempts m fuel c closed stack enough =
    elim (Bool-cases (strcmp_eq c.magic library_magic)) [
      | inr bad ↦ rw bad (unopened k_err_bad_magic c refl closed refl)
      | inl good ↦ rw good (named c.account.host)
    ]
  where
    named :
        (host : Bytes)
        → Opened (elim host [
          | [] ↦ some (some k_err_bad_parameter, record c { err_no = k_err_bad_parameter })
          | _ ∷ _ ↦
              dial_loop (pos m) (dial_no_login attempts) return fuel 0 k_err_connect_misc_err c
        ])
    named [] =
        unopened k_err_bad_parameter (record c { err_no = k_err_bad_parameter }) refl closed refl
    named (_ ∷ _) =
        dial_loop-Opened attempts m fuel 0 k_err_connect_misc_err c refl closed stack
          (omega (arith, enough))
