-- ===== src/Session/Calls.antt =====
-- Any sequence of calls of the library on one connection.
use libncftp.Base.{ℕ, Bool, true, false, [], ◌∷◌, List, Option, some, Bytes, ℤ, ◌≡◌, refl, All}
use libncftp.Conn.{Conn, M, ◌>>=◌, return}
use libncftp.Commands.Names.{rename, umask, symlink}
use libncftp.Commands.TransferType.{set_transfer_type}
use libncftp.Commands.Directory.{Destination, chdir, get_cwd, chdir_and_get_cwd}
use libncftp.Commands.Facts.{file_size, file_modification_time}
use libncftp.Commands.Utime.{utime}
use libncftp.Commands.Mkdir.{mkdir2}
use libncftp.Commands.Chdir3.{Flags, chdir3, joined, chdir_list}
use libncftp.Commands.Batch.{chmod, delete, rmdir, chmod_once, rmd_once, dele_once}
use libncftp.Commands.Probe.{Readers, mlist_one_file}
use libncftp.Commands.Probe.Facts.{remote_help}
use libncftp.Session.Ready.{Ready, ran, Runs, Settled}
use libncftp.Session.Plain.{
  chdir-Runs, rename-Runs, umask-Runs, symlink-Runs, set_transfer_type-Runs,
}
use libncftp.Session.Read.{utime-Runs, mlist_one_file-Runs, remote_help-Runs}
use libncftp.Session.Values.{SettledWith, file_size-Runs, file_modification_time-Runs}
use libncftp.Session.Walks.{Given, GotCwd, get_cwd-Runs}
use libncftp.Session.Move.{chdir_and_get_cwd-Runs}
use libncftp.Session.Make.{Named, mkdir2-Runs}
use libncftp.Session.Names.{chdir3-Runs, chdir_list-Runs}
use libncftp.Session.Batch.{
  Behaves, over_names-Runs, chmod_once-Runs, rmd_once-Runs, dele_once-Runs,
}

-- What the calls use that is not modelled: the readers of texts, the formatting of times, the clock,
-- the data connection, and FTPRmdirRecursive.
pub record Outside : Type 0 where
  pub readers : Readers
  pub gm : ℤ → Option Bytes
  pub clock : ℤ
  pub remove_tree : Bytes → M ℤ

-- A call with its arguments. An array of the caller's stands in its destination.
pub data Call : Type 0 where
  call_chdir : Option Bytes → Call
  call_get_cwd : Destination → Call
  call_chdir_and_get_cwd : Option Bytes → Destination → Call
  call_chdir3 : Option Bytes → Destination → Flags → Call
  call_chdir_list : List Bytes → Destination → Flags → Call
  call_mkdir2 : Option Bytes → Bool → Option Bytes → Call
  call_set_transfer_type : ℕ → Call
  call_file_size : Option Bytes → Bool → ℕ → Call
  call_file_modification_time : Option Bytes → Bool → Call
  call_mlist_one_file : Bytes → Call
  call_utime : Bytes → ℤ → ℤ → ℤ → Call
  call_rename call_symlink : Option Bytes → Option Bytes → Call
  call_umask call_remote_help : Option Bytes → Call
  call_chmod : Option Bytes → Bytes → Bool → Call
  call_delete call_rmdir : Option Bytes → Bool → Bool → Call

-- The result of a call that gives more than a result.
unfoldable pub result_of : {A : Type 0} → M (ℤ × A) → M ℤ
result_of m = do pair ← m; return pair.0

unfoldable pub perform : Outside → Call → M ℤ
unfolding result_of
perform out (call_chdir dir) = chdir dir
perform out (call_get_cwd to) = result_of (get_cwd to)
perform out (call_chdir_and_get_cwd dir to) = result_of (chdir_and_get_cwd dir to)
perform out (call_chdir3 path to flags) = result_of (chdir3 path to flags)
perform out (call_chdir_list list to flags) = result_of (chdir_list list to flags)
perform out (call_mkdir2 dir recurse cur) = mkdir2 dir recurse cur
perform out (call_set_transfer_type type) = set_transfer_type type
perform out (call_file_size file wanted type) =
    result_of (file_size out.readers.scan_size file wanted type)
perform out (call_file_modification_time file wanted) =
    result_of (file_modification_time out.readers.un_mdtm_date file wanted)
perform out (call_mlist_one_file file) = result_of (mlist_one_file out.readers.un_mls_t file)
perform out (call_utime file actime modtime crtime) =
    utime out.gm out.clock file actime modtime crtime
perform out (call_rename oldname newname) = rename oldname newname
perform out (call_symlink lfrom lto) = symlink lfrom lto
perform out (call_umask umsk) = umask umsk
perform out (call_remote_help pattern) = result_of (remote_help pattern)
perform out (call_chmod pattern mode do_glob) = chmod out.readers.net pattern mode do_glob
perform out (call_delete pattern recurse do_glob) =
    delete out.readers.net out.remove_tree pattern recurse do_glob
perform out (call_rmdir pattern recurse do_glob) =
    rmdir out.readers.net out.remove_tree pattern recurse do_glob

-- The calls one after the other, with their results.
unfoldable pub perform_all : Outside → List Call → M (List ℤ)
unfolding perform
perform_all out [] = return []
perform_all out (call ∷ calls) = do
  result ← perform out call
  results ← perform_all out calls
  return (result ∷ results)

-- What a call asks of its arguments: an array of the caller's has room for a text of one byte, and is
-- a text; a path to make with its parents has a name in it; FTPChdir3 takes the whole path.
abbrev pub Sensible : Call → Type 0
Sensible (call_get_cwd to) = Given to
Sensible (call_chdir_and_get_cwd dir to) = Given to
Sensible (call_chdir3 path to flags) =
    Given to × (flags.one ≡ false) × (flags.mkd ≡ true → Named path)
Sensible (call_chdir_list list to flags) =
    Given to × (flags.mkd ≡ true → Named (some (joined list)))
Sensible (call_mkdir2 dir recurse cur) = recurse ≡ true → Named dir
Sensible _ = Unit

-- The parts that are not modelled end, settle their results and keep the block ready.
pub record Sound (out : Outside) : Type 0 where
  pub behaves : Behaves out.readers.net
  pub removes : (dir : Bytes) → Runs Settled (out.remove_tree dir)

result_of-Runs : {A : Type 0} (m : M (ℤ × A)) → Runs SettledWith m → Runs Settled (result_of m)
unfolding result_of
result_of-Runs m runs c r = elim (runs c r) [ ran (e, a) d p rd eq ↦ rw eq (ran e d p rd refl) ]

GotCwd-Settled :
    (to : Destination) (m : M (ℤ × Bytes)) → Runs (GotCwd to) m → Runs Settled (result_of m)
unfolding result_of
GotCwd-Settled to m runs c r = elim (runs c r) [
  | ran (e, a) d p rd eq ↦ rw eq (ran e d p.0 rd refl)
]

perform-Runs :
    (out : Outside) (call : Call) → Sound out → Sensible call → Runs Settled (perform out call)
unfolding perform chmod delete rmdir
perform-Runs out (call_chdir dir) s h = chdir-Runs dir
perform-Runs out (call_get_cwd to) s h = GotCwd-Settled to _ (get_cwd-Runs to h)
perform-Runs out (call_chdir_and_get_cwd dir to) s h =
    GotCwd-Settled to _ (chdir_and_get_cwd-Runs dir to h)
perform-Runs out (call_chdir3 path to flags) s (given, whole, named) =
    GotCwd-Settled to _ (chdir3-Runs path to flags given whole named)
perform-Runs out (call_chdir_list list to flags) s (given, named) =
    GotCwd-Settled to _ (chdir_list-Runs list to flags given named)
perform-Runs out (call_mkdir2 dir recurse cur) s h = mkdir2-Runs dir recurse cur h
perform-Runs out (call_set_transfer_type type) s h = set_transfer_type-Runs type
perform-Runs out (call_file_size file wanted type) s h =
    result_of-Runs _ (file_size-Runs out.readers.scan_size file wanted type)
perform-Runs out (call_file_modification_time file wanted) s h =
    result_of-Runs _ (file_modification_time-Runs out.readers.un_mdtm_date file wanted)
perform-Runs out (call_mlist_one_file file) s h =
    result_of-Runs _ (mlist_one_file-Runs out.readers.un_mls_t file)
perform-Runs out (call_utime file actime modtime crtime) s h =
    utime-Runs out.gm out.clock file actime modtime crtime
perform-Runs out (call_rename oldname newname) s h = rename-Runs oldname newname
perform-Runs out (call_symlink lfrom lto) s h = symlink-Runs lfrom lto
perform-Runs out (call_umask umsk) s h = umask-Runs umsk
perform-Runs out (call_remote_help pattern) s h = result_of-Runs _ (remote_help-Runs pattern)
perform-Runs out (call_chmod pattern mode do_glob) s h =
    over_names-Runs out.readers.net pattern do_glob (chmod_once mode) s.behaves
      (chmod_once-Runs mode)
perform-Runs out (call_delete pattern recurse do_glob) s h =
    over_names-Runs out.readers.net pattern do_glob (dele_once out.remove_tree recurse) s.behaves
      (dele_once-Runs out.remove_tree s.removes recurse)
perform-Runs out (call_rmdir pattern recurse do_glob) s h =
    over_names-Runs out.readers.net pattern do_glob (rmd_once out.remove_tree recurse) s.behaves
      (rmd_once-Runs out.remove_tree s.removes recurse)

-- From a ready connection block, any sequence of calls with sensible arguments runs to its end,
-- whatever the server sends and whenever it closes the connection: no call reads through NULL, behind
-- an array or without end, each result is kNoErr or a negative error, and the block is ready again
-- after the last. A block is ready if memory is at hand, the stack has a NUL behind the fourth byte of
-- GetResponse's line buffer, the block's magic is the library's, its buffers have two bytes and the
-- working buffer a NUL, and an open connection has its directory cache. Arguments are sensible if an array of the caller's has two bytes and a NUL, a path that is made with its
-- parents is not of slashes alone, and FTPChdir3 is not told to go name by name. The data connection
-- and FTPRmdirRecursive are taken to end, to settle their results and to keep the block ready.
pub perform_all-Ready :
    (out : Outside) (calls : List Call) (c : Conn)
    → Sound out
    → All Sensible calls
    → Ready c
    → (results : List ℤ) × (d : Conn) × (perform_all out calls c ≡ some (results, d))
      × All Settled results
      × Ready d
unfolding perform_all
perform_all-Ready out [] c s h r = ([], c, refl, tt, r)
perform_all-Ready out (call ∷ calls) c s (h, hs) r = elim (perform-Runs out call s h c r) [
  | ran e d p rd eq ↦
      let (results, d', eq', ps, rd') = perform_all-Ready out calls d s hs rd in
      (e ∷ results, d', rw (eq, eq'), (p, ps), rd')
]
