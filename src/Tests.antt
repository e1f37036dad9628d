-- ===== src/Tests.antt =====
-- A connection, replies and buffers to try the model on.
pub mod Commands
pub mod Sessions
pub mod Replies
pub mod Strings
pub mod Streams
pub mod Openings
pub mod Lines
use libncftp.Base.{
  c_string, ℕ, Bool, true, false, List, [], ◌∷◌, ◌++◌, Option, none, some, Bytes, codes, ℤ, pos,
  ◌≡◌, ◌≢◌, refl, arith, replicate, strcmp_eq, strncmp_eq,
}
use libncftp.Conn.{Features, Account, Conn, Readline, whole, unknown, library_magic}
use libncftp.Reply.Frame.{Reply, Middle, plain, IsReply, number_of, wire_reply}
use libncftp.Reply.Outcome.{StackEnds}
use libncftp.Command.Framing.{Sendable}
use libncftp.Command.Exchange.{Answers}
use libncftp.Session.Ready.{Ready}

-- An account that is not anonymous, without a firewall.
abbrev pub anyone : Account
anyone = record {
  host = codes "h";
  port = codes "21";
  user = codes "u";
  pass = codes "p";
  acct = [];
  pass_is_empty = false;
  leave_pass = false;
  firewall_type = 0;
  firewall_user = [];
  firewall_pass = [];
  do_not_get_starting_cwd = false;
}

abbrev pub unknown_features : Features
unknown_features = record {
  has_pasv = unknown;
  has_rest = unknown;
  has_nlst_d = unknown;
  has_feat = unknown;
  has_mlsd = unknown;
  has_clnt = unknown;
  has_help_site = unknown;
  has_retr_tar = unknown;
  has_site_retrbufsize = unknown;
  has_site_rbufsiz = unknown;
  has_site_rbufsz = unknown;
  has_site_storbufsize = unknown;
  has_site_sbufsiz = unknown;
  has_site_sbufsz = unknown;
  has_site_bufsize = unknown;
}

-- A connection to a server that behaves as `peer`.
abbrev pub conn_to : (List Bytes → List Readline) → Conn
conn_to peer = record {
  magic = library_magic;
  err_no = pos 0;
  last_result_str = [];
  last_result_num = pos 0;
  last_result_ll = [];
  account = anyone;
  cwd = some (replicate 12 0);
  cwd_size = 12;
  starting_cwd = none;
  buf = none;
  buf_size = 0;
  do_alloc_buf = false;
  features = unknown_features;
  cur_transfer_type = b'I';
  has_size = unknown;
  has_mdtm = unknown;
  has_mdtm_set = unknown;
  has_mfmt = unknown;
  has_mff = unknown;
  has_mlst = unknown;
  has_site_utime = unknown;
  has_nlst_a = unknown;
  stat_file_param_works = unknown;
  nlst_file_param_works = unknown;
  used_mls = false;
  mls_features = 0;
  ietf_compat_level = 0;
  server_type = 0;
  connected = true;
  logged_in = true;
  ctrl_open = true;
  data_timed_out = false;
  sent = [];
  input = [];
  peer = peer;
  writes = λ lines. whole;
  poll = λ unread. true;
  malloc = λ n. true;
  allocs = 0;
  junk = replicate 8 1 ++ (0 ∷ []);
}

-- A reply of one line.
abbrev pub one_line : ℕ → ℕ → ℕ → Bytes → Reply
one_line d1 d2 d3 text = record { d1 = d1; d2 = d2; d3 = d3; first = text; more = none }

abbrev pub done : Reply
done = one_line b'2' b'5' b'0' (codes "ok")

abbrev pub proceed : Reply
proceed = one_line b'3' b'5' b'0' (codes "go")

abbrev pub refusal : Reply
refusal = one_line b'5' b'0' b'0' (codes "no")

abbrev pub closing : Reply
closing = one_line b'4' b'2' b'1' (codes "bye")

abbrev pub directory : Reply
directory = one_line b'2' b'5' b'7' (codes "\"/pub\" is it")

-- A reply of three lines.
abbrev pub help : Reply
help = record {
  d1 = b'2';
  d2 = b'1';
  d3 = b'4';
  first = codes "hi";
  more = some (plain (codes " A") ∷ [], codes "end");
}

pub done-IsReply : IsReply done
done-IsReply = record {
  digit1 = ground arith;
  digit2 = ground arith;
  digit3 = ground arith;
  first_text = ground arith;
  more_text = tt;
}

pub proceed-IsReply : IsReply proceed
proceed-IsReply = record {
  digit1 = ground arith;
  digit2 = ground arith;
  digit3 = ground arith;
  first_text = ground arith;
  more_text = tt;
}

pub help-IsReply : IsReply help
unfolding strncmp_eq
help-IsReply = record {
  digit1 = ground arith;
  digit2 = ground arith;
  digit3 = ground arith;
  first_text = ground arith;
  more_text = ground arith;
}

pub closing-IsReply : IsReply closing
closing-IsReply = record {
  digit1 = ground arith;
  digit2 = ground arith;
  digit3 = ground arith;
  first_text = ground arith;
  more_text = tt;
}

pub refusal-IsReply : IsReply refusal
refusal-IsReply = record {
  digit1 = ground arith;
  digit2 = ground arith;
  digit3 = ground arith;
  first_text = ground arith;
  more_text = tt;
}

pub directory-IsReply : IsReply directory
directory-IsReply = record {
  digit1 = ground arith;
  digit2 = ground arith;
  digit3 = ground arith;
  first_text = ground arith;
  more_text = tt;
}

-- A server that always gives the same reply.
abbrev pub conn_giving : Reply → Conn
conn_giving r = conn_to (λ lines. wire_reply r)

pub answers :
    (command : Bytes) (r : Reply)
    → IsReply r
    → number_of r ≢ 421
    → Sendable command
    → Answers (conn_giving r) command r
unfolding strcmp_eq
answers command r well stays sendable = record {
  genuine = refl;
  is_open = refl;
  memory = λ n. refl;
  timely = refl;
  drained = refl;
  sendable = sendable;
  writes = refl;
  reply = refl;
  well = well;
  stays = stays;
}

abbrev pub need_pass : Reply
need_pass = one_line b'3' b'3' b'1' (codes "pw")

pub need_pass-IsReply : IsReply need_pass
need_pass-IsReply = record {
  digit1 = ground arith;
  digit2 = ground arith;
  digit3 = ground arith;
  first_text = ground arith;
  more_text = tt;
}

-- The stack of the tests has a NUL.
pub eight-StackEnds : StackEnds (replicate 8 1 ++ (0 ∷ []))
unfolding c_string
eight-StackEnds = (1 ∷ 1 ∷ 1 ∷ 1 ∷ [], refl)

-- A block between two calls, to a server that always gives the same reply.
pub conn_giving-Ready : (r : Reply) → Ready (conn_giving r)
unfolding strcmp_eq
conn_giving-Ready r = record {
  genuine = refl;
  memory = λ n. refl;
  stack = eight-StackEnds;
  present = λ _. tt;
  sized = ground arith;
  roomy = tt;
}
