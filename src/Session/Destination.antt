-- ===== src/Session/Destination.antt =====
-- Where FTPGetCWD copies the directory to, and the directory cache.
use libncftp.Base.{
  ℕ, suc, ◌-◌, ◌≤◌, [], ◌∷◌, Option, none, some, Bytes, length, length-set, length-take, set, take,
  ◌≡◌, refl, arith,
}
use libncftp.Conn.{Conn, ◌>>◌}
use libncftp.Strn.{strncpy}
use libncftp.Strn.Copy.{padded, strncpy_lem, length-padded}
use libncftp.Commands.Directory.{
  Destination, nowhere, cache, array, blank, copy_out, copy_cache, untouched, store_cwd,
}
use libncftp.Session.Ready.{Ready, Sized, Present, Ended, Room, c_string-append}

-- A destination that a directory can be copied to.
abbrev pub Sound : Destination → Type 0
Sound nowhere = ⊥
Sound cache = Unit
Sound (array a) = Room a

abbrev pub GoodOut : Destination → Bytes → Type 0
GoodOut nowhere out = Unit
GoodOut cache out = Unit
GoodOut (array a) out = Room out

padded-Ended : (k : ℕ) (src d : Bytes) → Ended (some (padded k src d))
unfolding padded
padded-Ended k src d =
    let room : suc k - length (take k src) ≡ suc (k - length (take k src)) =
      omega (arith, length-take k src) in
    rw room (c_string-append (take k src) _)

-- Strncpy into an array with room leaves an array with room.
pub strncpy-Room :
    (a text : Bytes) → 2 ≤ length a → (b : Bytes) × (strncpy a text (length a) ≡ some b) × Room b
strncpy-Room [] text h = absurd (omega arith)
strncpy-Room (x ∷ a) text h = (
  padded (length a) text (x ∷ a),
  strncpy_lem (x ∷ a) text (length a) (omega arith),
  (
    omega (arith, length-padded (length a) text (x ∷ a) (omega arith)),
    padded-Ended (length a) text (x ∷ a),
  ),
)

pub copy_out-GoodOut :
    (to : Destination) (text : Bytes) (c : Conn)
    → Sound to
    → (out : Bytes) × GoodOut to out × (copy_out to text c ≡ some (out, c))
unfolding copy_out
copy_out-GoodOut nowhere text c sound = absurd sound
copy_out-GoodOut cache text c sound = ([], tt, refl)
copy_out-GoodOut (array a) text c (h, _) =
    let (b, e, room) = strncpy-Room a text h in (b, room, rw (e, copy_out))

-- A cache of the same size in place of the old one.
pub Ready-cwd : (c : Conn) (b : Bytes) → 2 ≤ length b → Ready c → Ready (record c { cwd = some b })
Ready-cwd c b h r = record {
  genuine = r.genuine;
  memory = r.memory;
  stack = r.stack;
  present = λ _. tt;
  sized = h;
  roomy = r.roomy;
}

-- As `Safe`, where the property is one of the connection too.
pub data SafeWith {A : Type 0} (P : A → Conn → Type 0) (out : Option (A × Conn)) : Type 0 where
  ran_with : (a : A) (d : Conn) → P a d → Ready d → out ≡ some (a, d) → SafeWith P out

-- The cache is there if it was there before.
abbrev pub Stored : Destination → Option Bytes → Bytes → Conn → Type 0
Stored to before out d = GoodOut to out × (Present before → Present d.cwd)

pub untouched-GoodOut : (to : Destination) → Sound to → GoodOut to (untouched to)
untouched-GoodOut nowhere sound = tt
untouched-GoodOut cache sound = tt
untouched-GoodOut (array a) sound = sound

pub store_cwd-Stored :
    (to : Destination) (found : Option Bytes) (c : Conn)
    → Sound to
    → Ready c
    → SafeWith (Stored to c.cwd) (store_cwd to found c)
unfolding store_cwd copy_cache
store_cwd-Stored to none c sound r =
    ran_with (untouched to) c (untouched-GoodOut to sound, λ h. h) r refl
store_cwd-Stored to (some dir) c sound r = go c.cwd r.sized
  where
    go :
        (cwd : Option Bytes)
        → Sized cwd
        → SafeWith (Stored to cwd) ((copy_cache cwd dir >> copy_out to dir) c)
    go none h =
        let (out, good, e') = copy_out-GoodOut to dir c sound in
        ran_with out c (good, λ h. absurd h) r e'
    go (some b) h =
        let (b', e1, (h', _)) = strncpy-Room b dir h in
        let d = record c { cwd = some b' } in
        let (out, good, e') = copy_out-GoodOut to dir d sound in
        let copied : copy_cache (some b) dir c ≡ some (tt, d) = rw (copy_cache, e1) in
        ran_with out d (good, λ _. tt) (Ready-cwd c b' h' r) (rw copied e')

-- `cwd[0] = '\0'; cwd[size - 2] = '\0';`
pub Ready-blank : (c : Conn) → Ready c → Ready (record c { cwd = blank c.cwd })
Ready-blank c r = record {
  genuine = r.genuine;
  memory = r.memory;
  stack = r.stack;
  present = λ h. there c.cwd (r.present h);
  sized = kept c.cwd r.sized;
  roomy = r.roomy;
}
  where
    there : (b : Option Bytes) → Present b → Present (blank b)
    there none h = h
    there (some b) h = tt

    kept : (b : Option Bytes) → Sized b → Sized (blank b)
    kept none h = tt
    kept (some b) h = omega (arith, length-set b 0 0, length-set (set b 0 0) (length b - 2) 0)

pub Present-blank : (b : Option Bytes) → Present b → Present (blank b)
Present-blank none h = h
Present-blank (some b) h = tt
