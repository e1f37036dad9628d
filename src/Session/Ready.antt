-- ===== src/Session/Ready.antt =====
-- What holds of a connection block between calls, and how it is shown of a command that is put
-- together from others.
use libncftp.Base.{
  ℕ, suc, ◌+◌, ◌≤◌, Bool, true, false, [], ◌∷◌, ◌++◌, Option, none, some, Bytes, if◌then◌else◌, ℤ,
  pos, negsuc, is_neg, length, length-replicate, replicate, c_string, strcmp_eq, ◌≡◌, refl, ◌⊎◌,
  inl, inr, arith, Bool-cases, ◌==◌,
}
use libncftp.Conn.{Conn, M, fail_with, check_magic, library_magic, dispose_buf}
use libncftp.Reply.{Response, init_response, empty_response, done_with_response}
use libncftp.Reply.Outcome.{StackEnds}
use libncftp.Command.{ftp_cmd, r_cmd}
use libncftp.Command.Exchange.{
  Keeps, CommandEnds, replied, failed, ftp_cmd-CommandEnds, done_with_response_lem,
}
use libncftp.Command.Asking.{Asked, heard, unheard, r_cmd-Asked}
use libncftp.Commands.Ask.{ask}

-- A buffer that the code reads as a text has a NUL.
abbrev pub Ended : Option Bytes → Type 0
Ended none = Unit
Ended (some b) = (t : Bytes) × (c_string b ≡ some t)

-- A buffer that a directory is copied to has two bytes at least, and a NUL.
abbrev pub Room : Bytes → Type 0
Room b = (2 ≤ length b) × Ended (some b)

abbrev pub Roomy : Option Bytes → Type 0
Roomy none = Unit
Roomy (some b) = Room b

-- The last byte but one of the directory cache is looked at.
abbrev pub Sized : Option Bytes → Type 0
Sized none = Unit
Sized (some b) = 2 ≤ length b

abbrev pub Present : Option Bytes → Type 0
Present none = ⊥
Present (some b) = Unit

pub record IsReady (magic : Bytes) (malloc : ℕ → Bool) (ctrl_open : Bool) (cwd buf : Option Bytes)
    (junk : Bytes) : Type 0 where
  pub genuine : strcmp_eq magic library_magic ≡ true
  pub memory : (n : ℕ) → malloc n ≡ true
  pub stack : StackEnds junk
  -- An open connection has its directory cache, which FTPLoginHost makes.
  pub present : ctrl_open ≡ true → Present cwd
  pub sized : Sized cwd
  pub roomy : Roomy buf

-- The block is the library's, memory is at hand, the stack has a NUL behind the fourth byte of
-- GetResponse's line buffer, and the buffers are as the commands take them to be.
abbrev pub Ready : Conn → Type 0
Ready c = IsReady c.magic c.malloc c.ctrl_open c.cwd c.buf c.junk

-- No fault; the result has the property, and the block is ready again.
pub data Safe {A : Type 0} (P : A → Type 0) (out : Option (A × Conn)) : Type 0 where
  ran : (a : A) (d : Conn) → P a → Ready d → out ≡ some (a, d) → Safe P out

abbrev pub Runs : {A : Type 0} → (A → Type 0) → M A → Type 0
Runs P m = (c : Conn) → Ready c → Safe P (m c)

abbrev pub Any : {A : Type 0} → A → Type 0
Any a = Unit

-- kNoErr or an error, and no class of a reply.
abbrev pub Settled : ℤ → Type 0
Settled (pos n) = n ≡ 0
Settled (negsuc n) = Unit

pub Settled-neg : (e : ℤ) → is_neg e ≡ true → Settled e
Settled-neg (pos n) h = absurd (cc)
Settled-neg (negsuc n) h = tt

pub Safe-if :
    {A : Type 0} (P : A → Type 0) (b : Bool) (x y : Option (A × Conn))
    → Safe P x
    → Safe P y
    → Safe P (if b then x else y)
Safe-if P true x y hx hy = hx
Safe-if P false x y hx hy = hy

-- The same where the branches are steps.
pub Safe-choice :
    {A : Type 0} (P : A → Type 0) (b : Bool) (x y : M A) (c : Conn)
    → Safe P (x c)
    → Safe P (y c)
    → Safe P ((if b then x else y) c)
Safe-choice P true x y c hx hy = hx
Safe-choice P false x y c hx hy = hy

pub Runs-fail_with : (P : ℤ → Type 0) (e : ℤ) → P e → Runs P (fail_with e)
Runs-fail_with P e p c r = ran e (record c { err_no = e }) p r refl

pub Runs-check_magic : (P : ℤ → Type 0) (m : M ℤ) → Runs P m → Runs P (check_magic m)
Runs-check_magic P m runs c r = rw r.genuine (runs c r)

-- A buffer that has a NUL somewhere.
pub c_string-append : (s rest : Bytes) → (t : Bytes) × (c_string (s ++ (0 ∷ rest)) ≡ some t)
unfolding c_string
c_string-append [] rest = ([], refl)
c_string-append (x ∷ s) rest =
    let (t, e) = c_string-append s rest in
    elim (Bool-cases (x == 0)) [
      | inl zero_here ↦ ([], rw zero_here)
      | inr other ↦ (x ∷ t, rw (other, e))
    ]

c_string-zeros :
    (n x : ℕ) (b : Bytes)
    → length b ≡ n
    → (t : Bytes) × (c_string (x ∷ b) ≡ some t)
    → (t : Bytes) × (c_string (replicate (suc n) 0) ≡ some t)
unfolding c_string
c_string-zeros n x b e h = ([], refl)

Roomy-disposed : (owned : Bool) (buf : Option Bytes) → Roomy buf → Roomy (dispose_buf owned buf)
unfolding dispose_buf
Roomy-disposed owned none h = tt
Roomy-disposed true (some b) h = tt
Roomy-disposed false (some []) h = h
Roomy-disposed false (some (x ∷ b)) (h, text) = (
  omega (arith, length-replicate {A = ℕ} (length (x ∷ b)) 0),
  c_string-zeros (length b) x b refl text,
)

pub Roomy-kept :
    (owned : Bool) (old new : Option Bytes)
    → ((new ≡ old) ⊎ (new ≡ dispose_buf owned old))
    → Roomy old
    → Roomy new
Roomy-kept owned old new (inl e) h = rw e h
Roomy-kept owned old new (inr e) h = rw e (Roomy-disposed owned old h)

pub Sized-kept : (old new : Option Bytes) → ((new ≡ old) ⊎ (new ≡ none)) → Sized old → Sized new
Sized-kept old new (inl e) h = rw e h
Sized-kept old new (inr e) h = rw e tt

pub Ready-Keeps : (c d : Conn) → Ready c → Keeps c d → Ready d
Ready-Keeps c d r k = record {
  genuine = rw k.magic_kept r.genuine;
  memory = rw k.memory_kept r.memory;
  stack = rw k.stack_kept r.stack;
  present = λ is_open. let (before, same) = k.stays_open is_open in rw same (r.present before);
  sized = Sized-kept c.cwd d.cwd k.cwd_kept r.sized;
  roomy = Roomy-kept c.do_alloc_buf c.buf d.buf k.buf_kept r.roomy;
}

Safe-CommandEnds : (c : Conn) (out : Option (ℤ × Conn)) → Ready c → CommandEnds c out → Safe Any out
Safe-CommandEnds c out r (replied class str num ll sent i n small eq) = ran _ _ tt r eq
Safe-CommandEnds c out r (failed e d negative kept eq) = ran e d tt (Ready-Keeps c d r kept) eq

pub ftp_cmd-Runs : (command : Bytes) → Runs Any (ftp_cmd command)
ftp_cmd-Runs command c r =
    Safe-CommandEnds c (ftp_cmd command c) r (ftp_cmd-CommandEnds command c r.stack)

-- A reply has a line.
abbrev pub HasLine : ℤ × Response → Type 0
HasLine (result, rp) = is_neg result ≡ false → 1 ≤ length rp.msg

Safe-Asked :
    (command : Bytes) (c : Conn) (out : Option ((ℤ × Response) × Conn))
    → Ready c
    → Asked command c out
    → Safe HasLine out
Safe-Asked command c out r (heard rp text i n of is_open small one less eq) =
    ran _ _ (λ h. one) r eq
Safe-Asked command c out r (unheard e rp d negative kept eq) =
    ran (e, rp) d (λ h. absurd (cc)) (Ready-Keeps c d r kept) eq

pub r_cmd-Runs : (rp : Response) (command : Bytes) → Runs HasLine (r_cmd rp command)
r_cmd-Runs rp command c r =
    Safe-Asked command c (r_cmd rp command c) r
      (r_cmd-Asked rp command c r.genuine r.memory r.stack)

pub done_with_response-Ready :
    (rp : Response) (c : Conn) → Ready c → Ready (done_with_response (some rp) c)
done_with_response-Ready rp c r = let (str, num, ll, e) = done_with_response_lem rp c in rw e r

pub init_response-Runs :
    (c : Conn)
    → Ready c
    → init_response c ≡ some (some empty_response, record c { allocs = c.allocs + 1 })
unfolding init_response
init_response-Runs c r = rw (r.memory c.allocs)

-- The steps around a reply.
pub ask-Runs :
    {A : Type 0} (P : A → Type 0) (command : Bytes) (no_memory : M A)
    (use_reply : ℤ → Response → M A)
    → ((result : ℤ) (rp : Response) → HasLine (result, rp) → Runs P (use_reply result rp))
    → Runs P (ask command no_memory use_reply)
unfolding ask
ask-Runs P command no_memory use_reply used c r =
    let c1 = record c { allocs = c.allocs + 1 } in
    rw (init_response-Runs c r) (elim (r_cmd-Runs empty_response command c1 r) [
      | ran (result, rp) d has ready e ↦ rw e (elim (used result rp has d ready) [
        | ran a d' p ready' e' ↦ rw e' (ran a _ p (done_with_response-Ready rp d' ready') refl)
      ])
    ])
