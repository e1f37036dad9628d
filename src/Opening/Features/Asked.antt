-- ===== src/Opening/Features/Asked.antt =====
-- FTPQueryFeatures against a server that answers FEAT and HELP SITE.
use libncftp.Base.{
  ℕ, ◌+◌, ◌-◌, Bool, true, false, List, [], ◌∷◌, ◌++◌, ◌||◌, sym, none, some, Bytes, codes, ◌==◌,
  if◌then◌else◌, pos, strcmp_eq, ◌≡◌, refl, ◌∙◌, ap, inl, inr, Bool-cases,
}
use libncftp.Conn.{Availability, Features, Conn, library_magic, available}
use libncftp.Conn.Errors.{k_no_err}
use libncftp.Reply.{Response, empty_response, init_response, re_init_response}
use libncftp.Reply.Frame.{Reply, read_as, texts_of}
use libncftp.Command.Framing.{crlf, after_write}
use libncftp.Command.Exchange.{Answers, after_exchange, r_cmd-reply, r_cmd-Answers, done_with_reply}
use libncftp.Commands.Facts.{is_not_available}
use libncftp.Commands.Probe.Stat.{contains}
use libncftp.Opening.Features.Assume.{
  when, for_microsoft, assume_features, server_type_microsoft_ftp, server_type_net_ware_ftp,
}
use libncftp.Opening.Features.{
  rbufsiz_alone, learn, learn_site, learn_sites, ask_site, use_feat, ask_feat, query_server,
  query_features,
}
use libncftp.Opening.Features.Laws.{any_bare, upd, upd-or, told_all, learn_lines_lem}

-- The settings before the server is asked.
abbrev pub assumed : Conn → Conn
assumed c = assume_features (when (c.server_type == server_type_microsoft_ftp) for_microsoft c)

-- The connection once FEAT is answered; its reply is not the last result.
abbrev pub after_feat : Reply → ℕ → Conn → Conn
after_feat r n c = told_all (texts_of r) (
    learn (λ f. record f { has_feat = available })
      (record (after_write c (codes "FEAT" ++ crlf)) { allocs = n; input = [] }))

abbrev some_line : (Bytes → Bool) → List Bytes → Bool
some_line test [] = false
some_line test (l ∷ ls) = test l || some_line test ls

or_false : (t : Bool) → (t || false) ≡ t
or_false true = refl
or_false false = refl

-- Whether some line has the word.
abbrev names_word : Bytes → List Bytes → Bool
names_word word = some_line (contains word)

-- What the lines of the reply to HELP SITE tell: each option for a buffer size is available if some
-- line has its name, RBUFSIZ only where no capital stands in front of the first one in the line.
pub told_sites : List Bytes → Features → Features
told_sites lines f = record f {
  has_site_retrbufsize = upd (names_word (codes "RETRBUFSIZE") lines) f.has_site_retrbufsize;
  has_site_rbufsz = upd (names_word (codes "RBUFSZ") lines) f.has_site_rbufsz;
  has_site_rbufsiz = upd (some_line (rbufsiz_alone false) lines) f.has_site_rbufsiz;
  has_site_storbufsize = upd (names_word (codes "STORBUFSIZE") lines) f.has_site_storbufsize;
  has_site_sbufsiz = upd (names_word (codes "SBUFSIZ") lines) f.has_site_sbufsiz;
  has_site_sbufsz = upd (names_word (codes "SBUFSZ") lines) f.has_site_sbufsz;
  has_site_bufsize = upd (names_word (codes "BUFSIZE") lines) f.has_site_bufsize;
}

-- A test that sets a field, as a field that a test decides.
setting :
    (get : Features → Availability) (set : Availability → Features → Features)
    → ((f : Features) → set (get f) f ≡ f)
    → (test : Bool) (f : Features)
    → (if test then set available f else f) ≡ set (upd test (get f)) f
setting get set same true f = refl
setting get set same false f = sym (same f)

-- The same behind other settings.
then_setting :
    {x y : Features} (get : Features → Availability) (set : Availability → Features → Features)
    → ((f : Features) → set (get f) f ≡ f)
    → (test : Bool) → x ≡ y
    → (if test then set available x else x) ≡ set (upd test (get y)) y
then_setting {y = y} get set same test e =
    ap (λ z. if test then set available z else z) e ∙ setting get set same test y

learn_site-told_sites : (l : Bytes) (f : Features) → learn_site l f ≡ told_sites (l ∷ []) f
unfolding told_sites learn_site
learn_site-told_sites l f =
    rw
      (
        or_false (contains (codes "RETRBUFSIZE") l),
        or_false (contains (codes "RBUFSZ") l),
        or_false (rbufsiz_alone false l),
        or_false (contains (codes "STORBUFSIZE") l),
        or_false (contains (codes "SBUFSIZ") l),
        or_false (contains (codes "SBUFSZ") l),
        or_false (contains (codes "BUFSIZE") l),
      )
      (then_setting (λ f. f.has_site_bufsize) (λ a f. record f { has_site_bufsize = a }) (λ f. refl)
        (contains (codes "BUFSIZE") l)
        (then_setting (λ f. f.has_site_sbufsz) (λ a f. record f { has_site_sbufsz = a }) (λ f. refl)
          (contains (codes "SBUFSZ") l)
          (then_setting (λ f. f.has_site_sbufsiz) (λ a f. record f { has_site_sbufsiz = a })
            (λ f. refl) (contains (codes "SBUFSIZ") l)
            (then_setting (λ f. f.has_site_storbufsize)
              (λ a f. record f { has_site_storbufsize = a }) (λ f. refl)
              (contains (codes "STORBUFSIZE") l)
              (then_setting (λ f. f.has_site_rbufsiz) (λ a f. record f { has_site_rbufsiz = a })
                (λ f. refl) (rbufsiz_alone false l)
                (then_setting (λ f. f.has_site_rbufsz) (λ a f. record f { has_site_rbufsz = a })
                  (λ f. refl) (contains (codes "RBUFSZ") l)
                  (setting (λ f. f.has_site_retrbufsize)
                    (λ a f. record f { has_site_retrbufsize = a }) (λ f. refl)
                    (contains (codes "RETRBUFSIZE") l) f)))))))

told_sites-∷ :
    (l : Bytes) (ls : List Bytes) (f : Features)
    → told_sites ls (told_sites (l ∷ []) f) ≡ told_sites (l ∷ ls) f
unfolding told_sites
told_sites-∷ l ls f = simp (upd-or, or_false) refl

learn_sites-told_sites : (ls : List Bytes) (f : Features) → learn_sites ls f ≡ told_sites ls f
learn_sites-told_sites [] f = unfold told_sites in refl
learn_sites-told_sites (l ∷ ls) f =
    learn_sites-told_sites ls (learn_site l f)
    ∙ ap (told_sites ls) (learn_site-told_sites l f)
    ∙ told_sites-∷ l ls f

-- What HELP SITE tells, if it is answered with class 2.
abbrev pub helped : Reply → Conn → Conn
helped s c =
    if s.d1 - b'0' == 2
    then record c {
      features = told_sites (texts_of s) (record c.features { has_help_site = available });
    }
    else c

moved :
    (c : Conn) (command : Bytes) (r : Reply) (n : ℕ)
    → Answers c command r
    → Answers (record c { allocs = n }) command r
moved c command r n a = record {
  genuine = a.genuine;
  is_open = a.is_open;
  memory = a.memory;
  timely = a.timely;
  drained = a.drained;
  sendable = a.sendable;
  writes = a.writes;
  reply = a.reply;
  well = a.well;
  stays = a.stays;
}

ask_site_lem :
    (rp : Response) (s : Reply) (c : Conn)
    → rp.no_save ≡ true
    → is_not_available c.features.has_help_site ≡ false
    → Answers c (codes "HELP SITE") s
    → (m : ℕ) × (ask_site rp c
        ≡ some (k_no_err, after_exchange (helped s c) (codes "HELP SITE") s m))
unfolding ask_site re_init_response
ask_site_lem rp s c quiet asks a =
    let (m, e) = r_cmd-Answers c (codes "HELP SITE") s a in
    (
      m,
      rw (quiet, asks, e)
          (elim (Bool-cases (s.d1 - b'0' == 2)) [
            | inl told ↦
                rw (told, learn_sites-told_sites)
                  (ap (λ d. some (k_no_err, d)) (done_with_reply s _))
            | inr no_help ↦ rw no_help (ap (λ d. some (k_no_err, d)) (done_with_reply s _))
          ]),
    )

use_feat_lem :
    (r : Reply) (c : Conn)
    → r.d1 - b'0' ≡ 2
    → any_bare (texts_of r) ≡ false
    → use_feat (pos (r.d1 - b'0')) (texts_of r) c
      ≡ some (told_all (texts_of r) (learn (λ f. record f { has_feat = available }) c))
unfolding use_feat
use_feat_lem r c done full =
    rw (done, learn_lines_lem (texts_of r) (learn (λ f. record f { has_feat = available }) c), full)
      refl

-- What is left to show of a server that is asked, for the connection `c` behind the settings.
pub record Tells (r s : Reply) (c : Conn) : Type 0 where
  pub on_feat : Answers c (codes "FEAT") r
  pub has : r.d1 - b'0' ≡ 2
  pub full : any_bare (texts_of r) ≡ false
  pub asked : is_not_available c.features.has_feat ≡ false
  pub help : is_not_available c.features.has_help_site ≡ false
  pub on_site : (n : ℕ) → Answers (after_feat r n c) (codes "HELP SITE") s

ask_feat_lem :
    (r s : Reply) (c : Conn)
    → Tells r s c
    → (n : ℕ) × (m : ℕ) × (ask_feat empty_response c
        ≡ some (k_no_err, after_exchange (helped s (after_feat r n c)) (codes "HELP SITE") s m))
unfolding ask_feat
ask_feat_lem r s c t =
    let rp' = record empty_response { no_save = true } in
    let (n, e) = r_cmd-reply c (codes "FEAT") r t.on_feat rp' in
    let (m, e') = ask_site_lem (read_as r rp') s (after_feat r n c) refl t.help (t.on_site n) in
    let d = record (after_write c (codes "FEAT" ++ crlf)) { allocs = n; input = [] } in
    (
      n,
      m,
      rw e (
          ap (λ o. elim o [ none ↦ none | some d ↦ ask_site (read_as r rp') d ])
            (use_feat_lem r d t.has t.full)
          ∙ e'),
    )

query_server_lem :
    (r s : Reply) (c : Conn)
    → Tells r s c
    → (n : ℕ) × (m : ℕ) × (query_server c
        ≡ some (k_no_err, after_exchange (helped s (after_feat r n c)) (codes "HELP SITE") s m))
unfolding query_server init_response
query_server_lem r s c t =
    let d = record c { allocs = c.allocs + 1 } in
    let t' : Tells r s d = record {
      on_feat = moved c (codes "FEAT") r (c.allocs + 1) t.on_feat;
      has = t.has;
      full = t.full;
      asked = t.asked;
      help = t.help;
      on_site = t.on_site;
    } in
    let (n, m, e) = ask_feat_lem r s d t' in (n, m, rw (t.asked, t.on_feat.memory c.allocs) e)

pub query_features_lem :
    (r s : Reply) (c : Conn)
    → strcmp_eq c.magic library_magic ≡ true
    → (c.server_type == server_type_net_ware_ftp) ≡ false
    → Tells r s (assumed c)
    → (n : ℕ) × (m : ℕ) × (query_features c
        ≡ some (
          k_no_err,
          after_exchange (helped s (after_feat r n (assumed c))) (codes "HELP SITE") s m,
        ))
unfolding query_features
query_features_lem r s c genuine other t =
    let (n, m, e) = query_server_lem r s (assumed c) t in (n, m, rw (genuine, other) e)
