-- ===== src/Tests/Openings.antt =====
-- Runs of FTPOpenHost and what it calls.
use libncftp.Conn.{◌>>=◌, not_available}
use libncftp.Session.Ready.{Ready, Settled}
use libncftp.Session.Calls.{call_chdir, perform_all}
use libncftp.Session.Begin.{opened-Ready}
use libncftp.Tests.{unknown_features}
use libncftp.Tests.Sessions.{outside, outside-Sound}
use libncftp.Base.{
  All, ℤ, ℕ, zero, suc, true, false, List, [], ◌∷◌, none, some, Bytes, codes, pos, ◌≡◌, refl, arith,
  replicate, strcmp_eq, strncmp_eq, if◌then◌else◌,
}
use libncftp.Conn.{Conn, Readline}
use libncftp.Conn.Errors.{k_no_err}
use libncftp.Reply.Frame.{Reply, plain, IsReply, wire_reply}
use libncftp.Command.{strip_eol}
use libncftp.Command.Exchange.{after_exchange}
use libncftp.Login.{is_anonymous}
use libncftp.Login.Accepted.{registered}
use libncftp.Opening.Welcome.{
  Attempt, up, no_connection, recognize, econnrefused, open_control_connection,
}
use libncftp.Opening.Welcome.Laws.{after_welcome, open_control_connection_lem}
use libncftp.Opening.Features.Assume.{assume_features}
use libncftp.Opening.Features.{learn_lines}
use libncftp.Commands.Glob.{strncasecmp_eq}
use libncftp.Opening.Features.Laws.{any_bare, told_all, learn_lines_lem}
use libncftp.Opening.Features.Asked.{assumed, after_feat, helped, Tells}
use libncftp.Opening.Dial.{Dialing, reset_status_variables, open_host, open_host_no_login}
use libncftp.Opening.Dial.Laws.{Opened, open_host_no_login-Opened}
use libncftp.Opening.Dial.Accepted.{Accepts, made_buf, logged_in_with, open_host_opens}
use libncftp.Tests.{eight-StackEnds, need_pass, need_pass-IsReply, anyone, conn_to, one_line}

abbrev greeting : Reply
greeting = one_line b'2' b'2' b'0' (codes "NcFTPd here")

greeting-IsReply : IsReply greeting
greeting-IsReply = record {
  digit1 = ground arith;
  digit2 = ground arith;
  digit3 = ground arith;
  first_text = ground arith;
  more_text = tt;
}

-- Nobody listens at first.
abbrev tries : ℕ → Attempt
tries zero = no_connection econnrefused
tries (suc n) = up (wire_reply greeting)

abbrev unconnected : Conn
unconnected = record (conn_to (λ lines. [])) { ctrl_open = false; connected = false }

open_control_connection_lem_example :
    (n : ℕ) × (open_control_connection (up (wire_reply greeting)) unconnected
      ≡ some (k_no_err, after_welcome greeting n unconnected))
open_control_connection_lem_example =
    open_control_connection_lem greeting unconnected (λ n. refl) refl greeting-IsReply
      (ground arith)

open_host_no_login-Opened_example : Opened (open_host_no_login tries (pos 2) 3 unconnected)
open_host_no_login-Opened_example =
    open_host_no_login-Opened tries 2 3 unconnected refl eight-StackEnds (ground arith)

abbrev feat_lines : List Bytes
feat_lines = codes "Features:" ∷ codes " size" ∷ codes " MLST type*;perm;" ∷ codes "End" ∷ []

learn_lines_lem_example :
    learn_lines feat_lines unconnected
    ≡ (if any_bare feat_lines then none else some (told_all feat_lines unconnected))
learn_lines_lem_example = learn_lines_lem feat_lines unconnected

-- The replies to FEAT and to HELP SITE.
abbrev feats : Reply
feats = record {
  d1 = b'2';
  d2 = b'1';
  d3 = b'1';
  first = codes "Features:";
  more = some (plain (codes " SIZE") ∷ [], codes "End");
}

feats-IsReply : IsReply feats
unfolding strncmp_eq
feats-IsReply = record {
  digit1 = ground arith;
  digit2 = ground arith;
  digit3 = ground arith;
  first_text = ground arith;
  more_text = ground arith;
}

abbrev site_help : Reply
site_help = record {
  d1 = b'2';
  d2 = b'1';
  d3 = b'4';
  first = codes "SITE:";
  more = some (plain (codes " RBUFSIZ UMASK") ∷ [], codes "End");
}

site_help-IsReply : IsReply site_help
unfolding strncmp_eq
site_help-IsReply = record {
  digit1 = ground arith;
  digit2 = ground arith;
  digit3 = ground arith;
  first_text = ground arith;
  more_text = ground arith;
}

abbrev teller : List Bytes → List Readline
teller [] = []
teller (t ∷ []) = wire_reply feats
teller (t ∷ u ∷ lines) = wire_reply site_help

abbrev let_in : Reply
let_in = one_line b'2' b'3' b'0' (codes "in")

let_in-IsReply : IsReply let_in
let_in-IsReply = record {
  digit1 = ground arith;
  digit2 = ground arith;
  digit3 = ground arith;
  first_text = ground arith;
  more_text = tt;
}

-- A server that asks for the password, and then lets the user in.
abbrev gatekeeper : List Bytes → List Readline
gatekeeper [] = []
gatekeeper (t ∷ []) = wire_reply need_pass
gatekeeper (t ∷ u ∷ lines) = wire_reply let_in

abbrev caller : Conn
caller = record (conn_to gatekeeper) {
  ctrl_open = false;
  connected = false;
  do_alloc_buf = true;
  buf_size = 4;
  features = record unknown_features { has_feat = not_available };
}

abbrev one_dial : Dialing
one_dial = record {
  attempts = λ n. up (wire_reply greeting);
  max_dials = pos 1;
  override = λ c. c;
  passphrase = λ msg pass. pass;
  anon_password = [];
  unwritten = [];
  login_fuel = 3;
}

caller-Accepts :
    Accepts one_dial
      (λ d. refl)
      b'u'
      []
      b'p'
      []
      (replicate 8 0)
      anyone
      0
      greeting
      need_pass
      let_in
      caller
unfolding strcmp_eq strip_eol is_anonymous reset_status_variables
caller-Accepts = record {
  hooked = refl;
  rounds = refl;
  memory = λ n. refl;
  own_buf = refl;
  well = greeting-IsReply;
  early = ground arith;
  named = refl;
  asks = refl;
  lets_in = refl;
  on_user = λ t k. record {
    genuine = refl;
    is_open = refl;
    memory = λ n. refl;
    timely = refl;
    drained = refl;
    sendable = record { fits = ground arith; no_eol = refl };
    writes = refl;
    reply = refl;
    well = need_pass-IsReply;
    stays = ground arith;
  };
  on_pass = λ t k j. record {
    genuine = refl;
    is_open = refl;
    memory = λ n. refl;
    timely = refl;
    drained = refl;
    sendable = record { fits = ground arith; no_eol = refl };
    writes = refl;
    reply = refl;
    well = let_in-IsReply;
    stays = ground arith;
  };
}

-- A server that lets the user in, and answers FEAT and HELP SITE then.
abbrev host : List Bytes → List Readline
host [] = []
host (t ∷ []) = wire_reply need_pass
host (t ∷ u ∷ []) = wire_reply let_in
host (t ∷ u ∷ v ∷ []) = wire_reply feats
host (t ∷ u ∷ v ∷ w ∷ lines) = wire_reply site_help

abbrev visitor : Conn
visitor = record (conn_to host) {
  ctrl_open = false;
  connected = false;
  do_alloc_buf = true;
  buf_size = 4;
}

visitor-Accepts :
    Accepts one_dial
      (λ d. refl)
      b'u'
      []
      b'p'
      []
      (replicate 8 0)
      anyone
      0
      greeting
      need_pass
      let_in
      visitor
unfolding strcmp_eq strip_eol is_anonymous reset_status_variables
visitor-Accepts = record {
  hooked = refl;
  rounds = refl;
  memory = λ n. refl;
  own_buf = refl;
  well = greeting-IsReply;
  early = ground arith;
  named = refl;
  asks = refl;
  lets_in = refl;
  on_user = λ t k. record {
    genuine = refl;
    is_open = refl;
    memory = λ n. refl;
    timely = refl;
    drained = refl;
    sendable = record { fits = ground arith; no_eol = refl };
    writes = refl;
    reply = refl;
    well = need_pass-IsReply;
    stays = ground arith;
  };
  on_pass = λ t k j. record {
    genuine = refl;
    is_open = refl;
    memory = λ n. refl;
    timely = refl;
    drained = refl;
    sendable = record { fits = ground arith; no_eol = refl };
    writes = refl;
    reply = refl;
    well = let_in-IsReply;
    stays = ground arith;
  };
}

-- The visitor behind the login.
abbrev visiting : ℕ → ℕ → ℕ → Conn
visiting k j m =
    logged_in_with one_dial (λ d. refl) b'u' [] b'p' [] (replicate 8 0) anyone (made_buf none 4)
      greeting k need_pass j let_in m visitor

visitor-Tells : (k j m : ℕ) → Tells feats site_help (assumed (visiting k j m))
unfolding strcmp_eq strip_eol assume_features strncasecmp_eq recognize reset_status_variables
    strncmp_eq
visitor-Tells k j m = record {
  on_feat = record {
    genuine = refl;
    is_open = refl;
    memory = λ n. refl;
    timely = refl;
    drained = refl;
    sendable = record { fits = ground arith; no_eol = refl };
    writes = refl;
    reply = refl;
    well = feats-IsReply;
    stays = ground arith;
  };
  has = refl;
  full = refl;
  asked = refl;
  help = refl;
  on_site = λ n. record {
    genuine = refl;
    is_open = refl;
    memory = λ n. refl;
    timely = refl;
    drained = refl;
    sendable = record { fits = ground arith; no_eol = refl };
    writes = refl;
    reply = refl;
    well = site_help-IsReply;
    stays = ground arith;
  };
}

open_host_opens_example :
    (k : ℕ) × (j : ℕ) × (m : ℕ) × (i : ℕ) × (l : ℕ) × (open_host one_dial 1
        (registered b'u' [] b'p' [] (replicate 8 0) anyone visitor)
      ≡ some (
        some k_no_err,
        after_exchange
            (helped site_help (after_feat feats i (assumed (visiting k j m))))
            (codes "HELP SITE")
            site_help
            l,
      ))
unfolding strcmp_eq recognize strncmp_eq
open_host_opens_example =
    open_host_opens one_dial (λ d. refl) b'u' [] b'p' [] (replicate 8 0) anyone 0 0 b'h' [] greeting
      need_pass let_in feats site_help visitor refl refl refl visitor-Accepts refl visitor-Tells

opened-Ready_example :
    (results : List ℤ) × (d : Conn) × ((open_host one_dial 1 >>= λ _.
    perform_all outside (call_chdir (some (codes "d")) ∷ []))
        (registered b'u' [] b'p' [] (replicate 8 0) anyone caller)
      ≡ some (results, d))
    × All Settled results
    × Ready d
unfolding strcmp_eq
opened-Ready_example =
    opened-Ready one_dial (λ d. refl) b'u' [] b'p' [] (replicate 8 0) anyone 0 0 b'h' [] greeting
      need_pass let_in caller outside (call_chdir (some (codes "d")) ∷ []) refl refl refl
      caller-Accepts (ground arith) (ground arith) refl eight-StackEnds outside-Sound (tt, tt)
