-- ===== src/Tests/Sessions.antt =====
-- The theorems on sessions, logins and batches at concrete connections.
use libncftp.Base.{
  split_first, split_last, ℕ, true, false, List, [], ◌∷◌, ◌++◌, none, some, Bytes, codes, ℤ, pos,
  ◌≡◌, refl, arith, replicate, strcmp_eq, All, c_string,
}
use libncftp.Conn.{Conn, Readline, return}
use libncftp.Conn.Errors.{k_no_err}
use libncftp.Reply.{empty_response}
use libncftp.Reply.Frame.{Reply, IsReply, wire_reply}
use libncftp.Command.{r_cmd, strip_eol}
use libncftp.Command.Exchange.{Answers, after_exchange}
use libncftp.Command.Asking.{Asked, r_cmd-Asked}
use libncftp.Commands.Directory.{array}
use libncftp.Commands.Mkdir.{mkdir2, strip_slashes}
use libncftp.Commands.Glob.{
  DataConnection, remote_glob, remote_glob_collapse, pattern_prefix, pattern_dir,
}
use libncftp.Commands.Glob.Collapse.{Tame, remote_glob_collapse-Tame}
use libncftp.Commands.Batch.Laws.{
  dele_batch, after_once, error_of, command_of, lines_of, verdict, run_batch, run_batch_lem,
}
use libncftp.Login.{login_host, is_anonymous, login_user}
use libncftp.Login.Loop.{Almost, Budget}
use libncftp.Login.Accepted.{registered, session_of, login_host_accepts}
use libncftp.Login.Endless.{Insists, login_host_insisted}
use libncftp.Login.Laws.{Outcome, login_host-Outcome}
use libncftp.Session.Ready.{Ready, Room, Safe, Settled, ran}
use libncftp.Session.Make.{mkdir2-Runs}
use libncftp.Session.Calls.{
  Outside, Sound, Call, call_chdir, call_get_cwd, call_delete, call_mkdir2, perform_all,
  perform_all-Ready,
}
use libncftp.Tests.{
  eight-StackEnds, need_pass, need_pass-IsReply, anyone, conn_to, conn_giving, conn_giving-Ready,
  one_line, done, refusal, directory, done-IsReply, refusal-IsReply,
}

-- A data connection that lists two names.
abbrev pub two_names : DataConnection
two_names = record {
  list_to_memory = λ pattern flags. return (pos 0, codes "ab" ∷ codes "a/../b" ∷ []);
  put_file_from_memory = λ name text. return (pos 0);
}

abbrev pub outside : Outside
outside = record {
  readers = record {
    un_mls_t = λ facts. none;
    scan_size = λ text old. pos 5;
    un_mdtm_date = λ text. pos 7;
    net = two_names;
  };
  gm = λ t. none;
  clock = pos 9;
  remove_tree = λ dir. return (pos 0);
}

pub outside-Sound : Sound outside
outside-Sound = record {
  behaves = record {
    list_runs = λ pattern flags c r. ran _ c refl r refl;
    put_runs = λ name text c r. ran _ c refl r refl;
  };
  removes = λ dir c r. ran _ c refl r refl;
}

abbrev eight : Bytes
eight = replicate 8 0

eight-Room : Room eight
unfolding c_string
eight-Room = (ground arith, ([], refl))

abbrev calls : List Call
calls =
    call_chdir (some (codes "pub"))
    ∷ call_get_cwd (array eight)
    ∷ call_delete (some (codes "a*")) false true
    ∷ call_mkdir2 (some (codes "x/y")) true none
    ∷ []

perform_all-Ready_example :
    (results : List ℤ) × (d : Conn) × (perform_all outside calls (conn_giving directory)
      ≡ some (results, d))
    × All Settled results
    × Ready d
perform_all-Ready_example =
    perform_all-Ready outside calls (conn_giving directory) outside-Sound
      (tt, (eight-Room, (tt, ((λ _. (codes "x/y", unfold strip_slashes in refl)), tt))))
      (conn_giving-Ready directory)

mkdir2-Runs_example : Safe Settled (mkdir2 (some (codes "x/y")) true none (conn_giving refusal))
mkdir2-Runs_example =
    mkdir2-Runs (some (codes "x/y")) true none (λ _. (codes "x/y", unfold strip_slashes in refl))
      (conn_giving refusal) (conn_giving-Ready refusal)

abbrev welcome : Reply
welcome = one_line b'2' b'3' b'0' (codes "hi")

-- A server that answers the first line and no other.
abbrev only_first : List Bytes → List Readline
only_first [] = []
only_first (t ∷ []) = wire_reply welcome
only_first (t ∷ u ∷ lines) = []

abbrev still_to_come : List Bytes → ℕ
still_to_come [] = 1
still_to_come (t ∷ lines) = 0

only_first-Budget : Budget only_first still_to_come
only_first-Budget [] text = ground arith
only_first-Budget (t ∷ []) text = ground arith
only_first-Budget (t ∷ u ∷ lines) text = ground arith

abbrev newcomer : Conn
newcomer = record (conn_to only_first) {
  account = record anyone { do_not_get_starting_cwd = true };
  logged_in = false;
}

newcomer-Almost : Almost newcomer
unfolding strcmp_eq
newcomer-Almost = record {
  genuine = refl;
  memory = λ n. refl;
  stack = eight-StackEnds;
  present = λ h. absurd (cc);
  sized = ground arith;
  roomy = tt;
}

login_host-Outcome_example : Outcome (login_host (λ msg pass. pass) [] eight 2 newcomer)
unfolding is_anonymous login_user strcmp_eq
login_host-Outcome_example =
    login_host-Outcome (λ msg pass. pass) [] eight still_to_come 2 newcomer (ground arith) refl refl
      refl newcomer-Almost tt only_first-Budget (ground arith)

-- A server that accepts the first command and refuses the others.
abbrev accepts_then_refuses : List Bytes → List Readline
accepts_then_refuses [] = []
accepts_then_refuses (t ∷ []) = wire_reply done
accepts_then_refuses (t ∷ u ∷ lines) = wire_reply refusal

-- The names that the pattern "?" finds, and the connection behind them.
abbrev f_and_g : DataConnection
f_and_g = record {
  list_to_memory = λ pattern flags. return (pos 0, codes "f" ∷ codes "g" ∷ []);
  put_file_from_memory = λ name text. return (pos 0);
}

abbrev globbed : Conn
globbed = record (conn_to accepts_then_refuses) { allocs = 5 }

abbrev answered : List (Bytes × Reply)
answered = (codes "f", done) ∷ (codes "g", refusal) ∷ []

deletes : Answers globbed (command_of dele_batch (codes "f")) done
unfolding strcmp_eq strip_eol
deletes = record {
  genuine = refl;
  is_open = refl;
  memory = λ n. refl;
  timely = refl;
  drained = refl;
  sendable = record { fits = ground arith; no_eol = refl };
  writes = refl;
  reply = refl;
  well = done-IsReply;
  stays = ground arith;
}

refuses :
    (n : ℕ)
    → Answers
        (after_once (command_of dele_batch) (error_of dele_batch) globbed (codes "f") done n)
        (command_of dele_batch (codes "g"))
        refusal
unfolding strcmp_eq strip_eol
refuses n = record {
  genuine = refl;
  is_open = refl;
  memory = λ n. refl;
  timely = refl;
  drained = refl;
  sendable = record { fits = ground arith; no_eol = refl };
  writes = refl;
  reply = refl;
  well = refusal-IsReply;
  stays = ground arith;
}

run_batch_lem_example :
    (d : Conn) × (run_batch f_and_g outside.remove_tree dele_batch
        (some (codes "?"))
        true
        (conn_to accepts_then_refuses)
      ≡ some (verdict (error_of dele_batch) k_no_err answered, d))
    × (d.sent ≡ [] ++ lines_of (command_of dele_batch) answered)
unfolding strcmp_eq remote_glob split_first split_last
run_batch_lem_example =
    run_batch_lem f_and_g outside.remove_tree dele_batch (some (codes "?")) true answered
      (conn_to accepts_then_refuses) globbed refl refl (deletes, λ n. (refuses n, λ m. tt))

remote_glob_collapse-Tame_example :
    (names : List Bytes) × (n : ℕ) × (remote_glob_collapse
        (codes "a*")
        (codes "ab" ∷ codes "a/../b" ∷ [])
        (conn_giving done)
      ≡ some (names, record (conn_giving done) { allocs = n }))
    × All (Tame (pattern_prefix (codes "a*")) (pattern_dir (codes "a*"))) names
remote_glob_collapse-Tame_example =
    remote_glob_collapse-Tame (codes "a*") (codes "ab" ∷ codes "a/../b" ∷ []) (conn_giving done)
      (λ n. refl)

r_cmd-Asked_example :
    Asked (codes "NOOP") (conn_giving done) (r_cmd empty_response (codes "NOOP") (conn_giving done))
r_cmd-Asked_example =
    r_cmd-Asked empty_response (codes "NOOP") (conn_giving done) (unfold strcmp_eq in refl)
      (λ n. refl) eight-StackEnds

welcome-IsReply : IsReply welcome
welcome-IsReply = record {
  digit1 = ground arith;
  digit2 = ground arith;
  digit3 = ground arith;
  first_text = ground arith;
  more_text = tt;
}

-- A server that asks for the password, and then lets the user in.
abbrev doorkeeper : List Bytes → List Readline
doorkeeper [] = []
doorkeeper (t ∷ []) = wire_reply need_pass
doorkeeper (t ∷ u ∷ lines) = wire_reply welcome

abbrev visitor : Conn
visitor = registered b'u' [] b'p' [] (replicate 8 0) anyone (conn_to doorkeeper)

asks_password : Answers visitor (codes "USER u") need_pass
unfolding strcmp_eq strip_eol
asks_password = record {
  genuine = refl;
  is_open = refl;
  memory = λ n. refl;
  timely = refl;
  drained = refl;
  sendable = record { fits = ground arith; no_eol = refl };
  writes = refl;
  reply = refl;
  well = need_pass-IsReply;
  stays = ground arith;
}

lets_in :
    (k : ℕ) → Answers (after_exchange visitor (codes "USER u") need_pass k) (codes "PASS p") welcome
unfolding strcmp_eq strip_eol
lets_in k = record {
  genuine = refl;
  is_open = refl;
  memory = λ n. refl;
  timely = refl;
  drained = refl;
  sendable = record { fits = ground arith; no_eol = refl };
  writes = refl;
  reply = refl;
  well = welcome-IsReply;
  stays = ground arith;
}

login_host_accepts_example :
    (k : ℕ) × (m : ℕ) × (login_host (λ msg pass. pass) [] [] 3 visitor
      ≡ some (
        some k_no_err,
        session_of (
            after_exchange
              (after_exchange visitor (codes "USER u") need_pass k)
              (codes "PASS p")
              welcome
              m),
      ))
unfolding is_anonymous strcmp_eq
login_host_accepts_example =
    login_host_accepts (λ msg pass. pass) b'u' [] b'p' [] (replicate 8 0) anyone [] [] 0 need_pass
      welcome (conn_to doorkeeper) refl refl refl asks_password lets_in

need_pass-Insists : Insists need_pass (conn_giving need_pass)
unfolding strcmp_eq
need_pass-Insists = record {
  genuine = refl;
  is_open = refl;
  memory = λ n. refl;
  timely = refl;
  drained = refl;
  writes = λ lines. refl;
  reply = λ lines. refl;
  well = need_pass-IsReply;
  asks = refl;
}

login_host_insisted_example :
    (d : Conn) × (login_host
        (λ msg pass. pass)
        []
        []
        1000
        (registered b'u' [] b'p' [] (replicate 8 0) anyone (conn_giving need_pass))
      ≡ some (none, d))
unfolding is_anonymous strcmp_eq strip_eol
login_host_insisted_example =
    login_host_insisted (λ msg pass. pass) b'u' [] b'p' [] (replicate 8 0) anyone need_pass [] []
      1000 (conn_giving need_pass) refl (record { fits = ground arith; no_eol = refl })
      (record { fits = ground arith; no_eol = refl }) need_pass-Insists
