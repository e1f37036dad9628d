-- ===== src/Session/Back.antt =====
-- The working buffer of the connection block, and the way back to the directory in it.
use libncftp.Base.{
  Bool, true, false, [], ◌∷◌, ◌++◌, Option, none, some, Bytes, codes, if◌then◌else◌, ℤ, pos, negsuc,
  int_eq, ◌≡◌, refl, Bool-cases, inl, inr, ◌==◌, ◌||◌, ==_iff,
}
use libncftp.Conn.{Conn}
use libncftp.Conn.Errors.{k_no_err, k_err_path_too_long, k_err_mkd_failed}
use libncftp.Commands.Directory.{nowhere, array}
use libncftp.Commands.Mkdir.{make_in_root}
use libncftp.Commands.Buf.{
  with_copy, get_cwd_into, get_cwd_into_buf, read_buf, chdir_to_buf, go_back, note_cwd,
  already_there, make_one,
}
use libncftp.Session.Ready.{Ready, ran, Runs, Any, Settled, ftp_cmd-Runs, Room, Roomy}
use libncftp.Session.Plain.{chdir-Runs, accepted-Runs}
use libncftp.Session.Walks.{get_cwd-Runs}

Ready-buf : (c : Conn) (b : Option Bytes) → Ready c → Roomy b → Ready (record c { buf = b })
Ready-buf c b r h = record {
  genuine = r.genuine;
  memory = r.memory;
  stack = r.stack;
  present = r.present;
  sized = r.sized;
  roomy = h;
}

with_copy-Roomy :
    (e : ℤ) (out : Bytes) (b : Option Bytes) → Room out → Roomy b → Roomy (with_copy e out b)
unfolding with_copy
with_copy-Roomy e out none ho hb = tt
with_copy-Roomy e out (some b) ho hb = go (int_eq e k_no_err || int_eq e k_err_path_too_long)
  where
    go : (t : Bool) → Room (if t then out else b)
    go true = ho
    go false = hb

get_cwd_into-Runs : (b : Option Bytes) → Roomy b → Runs Settled (get_cwd_into b)
unfolding get_cwd_into
get_cwd_into-Runs none h c r = elim (get_cwd-Runs nowhere tt c r) [
  | ran (e, out) d (settled, _) rd eq ↦ rw eq (ran e d settled rd refl)
]
get_cwd_into-Runs (some b) h c r = elim (get_cwd-Runs (array b) h c r) [
  | ran (e, out) d (settled, good) rd eq ↦ rw eq (
      ran e _ settled
        (Ready-buf d (with_copy e out d.buf) rd (with_copy-Roomy e out d.buf good rd.roomy)) refl)
]

pub get_cwd_into_buf-Runs : Runs Settled get_cwd_into_buf
unfolding get_cwd_into_buf
get_cwd_into_buf-Runs c r = get_cwd_into-Runs c.buf r.roomy c r

read_buf-Roomy : (b : Option Bytes) → Roomy b → (dir : Option Bytes) × (read_buf b ≡ some dir)
unfolding read_buf
read_buf-Roomy none h = (none, refl)
read_buf-Roomy (some b) (_, (t, e)) = (some t, rw (e, read_buf))

pub chdir_to_buf-Runs : Runs Settled chdir_to_buf
unfolding chdir_to_buf
chdir_to_buf-Runs c r =
    let (dir, e) = read_buf-Roomy c.buf r.roomy in rw (e, chdir_to_buf) (chdir-Runs dir c r)

pub go_back-Runs : (cur_dir : Option Bytes) → Runs Settled (go_back cur_dir)
unfolding go_back
go_back-Runs none c r = chdir_to_buf-Runs c r
go_back-Runs (some []) c r = chdir_to_buf-Runs c r
go_back-Runs (some (b ∷ dir)) c r = chdir-Runs (some (b ∷ dir)) c r

pub note_cwd-Runs : (cur_dir : Option Bytes) → Runs Any (note_cwd cur_dir)
unfolding note_cwd
note_cwd-Runs none c r = elim (get_cwd_into_buf-Runs c r) [
  | ran a d _ rd e ↦ rw e (ran tt d tt rd refl)
]
note_cwd-Runs (some []) c r = elim (get_cwd_into_buf-Runs c r) [
  | ran a d _ rd e ↦ rw e (ran tt d tt rd refl)
]
note_cwd-Runs (some (b ∷ dir)) c r = ran tt c tt r refl

pub already_there-Runs : (cur_dir : Option Bytes) → Runs Settled (already_there cur_dir)
unfolding already_there
already_there-Runs cur_dir c r = elim (go_back-Runs cur_dir c r) [
  | ran (pos n) d _ rd e ↦ rw e (ran k_no_err d refl rd refl)
  | ran (negsuc n) d _ rd e ↦ rw e (ran _ (record d { err_no = _ }) tt rd refl)
]

pub make_one-Runs : (dir : Bytes) → Runs Settled (make_one dir)
unfolding make_one
make_one-Runs dir c r = elim (ftp_cmd-Runs (codes "MKD " ++ dir) c r) [
  | ran (negsuc n) d _ rd e ↦ rw e (ran _ d tt rd refl)
  | ran (pos n) d _ rd e ↦ rw e (elim (Bool-cases (n == 0)) [
    | inl z ↦ rw z (ran _ d ((==_iff n 0).0 z) rd refl)
    | inr z ↦ rw z (accepted-Runs (pos n) k_err_mkd_failed d tt rd)
  ])
]

pub make_in_root-Runs : (dir : Bytes) → Runs Settled (make_in_root dir)
unfolding make_in_root
make_in_root-Runs dir c r = elim (ftp_cmd-Runs (codes "MKD " ++ dir) c r) [
  | ran (negsuc n) d _ rd e ↦ rw e (ran _ d tt rd refl)
  | ran (pos n) d _ rd e ↦ rw e (accepted-Runs (pos n) k_err_mkd_failed d tt rd)
]
