-- ===== src/Opening/Features.antt =====
-- libncftp/open.c, FTPQueryFeatures and FTPExamineMlstFeatures: what a connection learns of its server.
--
-- `ietf_compat_level` is only compared with a positive number: a negative one is 0 here.
pub mod Assume
pub mod Mlst
pub mod Laws
pub mod Asked
use libncftp.Base.{
  ℕ, suc, ◌+◌, Bool, true, false, not, ◌&&◌, ◌||◌, List, [], ◌∷◌, Option, none, some, Bytes, codes,
  leb, ltb, ◌==◌, if◌then◌else◌, ℤ, pos, is_neg, int_eq, length, take, drop, strncmp_eq, atoi_from,
  is_digit,
}
use libncftp.Conn.{
  Features, Conn, M, ◌>>=◌, ◌>>◌, return, fault, modify, fail_with, check_magic, available,
  not_available,
}
use libncftp.Conn.Errors.{k_no_err, k_err_malloc_failed}
use libncftp.Strn.Token.Pieces.{all_strtokc}
use libncftp.Reply.{Response, empty_response, init_response, re_init_response, done_with_response}
use libncftp.Command.{r_cmd}
use libncftp.Commands.Facts.{is_not_available}
use libncftp.Commands.Glob.{strncasecmp_eq}
use libncftp.Commands.Probe.{has_bit, server_type_ncftpd}
use libncftp.Commands.Probe.Stat.{contains}
use libncftp.Opening.Features.Assume.{
  server_type_microsoft_ftp, server_type_net_ware_ftp, for_microsoft, for_net_ware, when,
  assume_features,
}
use libncftp.Opening.Features.Mlst.{skip_spaces, begins, examine_mlst_features}

-- The number behind the spaces, with 0 for what is negative.
abbrev pub atoi_signed : Bytes → ℕ
atoi_signed [] = 0
atoi_signed (c ∷ s) = if c == b'+' then atoi_from 0 s else atoi_from 0 (c ∷ s)

-- `atoi`
abbrev pub atoi : Bytes → ℕ
atoi s = atoi_signed (skip_spaces s)

abbrev pub learn : (Features → Features) → Conn → Conn
learn change c = record c { features = change c.features }

-- What a line of the reply to FEAT tells. Behind "MLST" and a byte its facts are read, which is behind
-- the NUL where the line ends with the word.
unfoldable pub learn_word : Bytes → Conn → Option Conn
unfolding strncasecmp_eq examine_mlst_features atoi_from
learn_word cp c =
    if begins (codes "PASV") cp
    then some (learn (λ f. record f { has_pasv = available }) c)
    else if begins (codes "SIZE") cp
    then some (record c { has_size = available })
    else if begins (codes "MDTM") cp
    then some (record c { has_mdtm = available })
    else if begins (codes "MFMT") cp
    then some (record c { has_mfmt = available })
    else if begins (codes "MFF") cp
    then some (record c { has_mff = available })
    else if begins (codes "REST") cp
    then some (learn (λ f. record f { has_rest = available }) c)
    else if begins (codes "UTIME") cp
    then some (record c { has_site_utime = available })
    else if begins (codes "MLST") cp
    then (let d =
          learn (λ f. record f { has_mlsd = available }) (record c { has_mlst = available }) in
        if length cp == 4 then none else some (examine_mlst_features (drop 5 cp) d))
    else if begins (codes "CLNT") cp
    then some (learn (λ f. record f { has_clnt = available }) c)
    else if begins (codes "Compliance Level: ") cp
    then some (record c { ietf_compat_level = atoi (drop 18 cp) })
    else some c

-- The loop over the reply to FEAT. A line of spaces has none of the words.
unfoldable pub learn_lines : List Bytes → Conn → Option Conn
unfolding learn_word
learn_lines [] c = some c
learn_lines (l ∷ ls) c = elim (learn_word (skip_spaces l) c) [
  | none ↦ none
  | some d ↦ learn_lines ls d
]

-- `isupper`
abbrev pub is_upper : ℕ → Bool
is_upper c = leb b'A' c && leb c b'Z'

-- The first "RBUFSIZ" in a text stands at its front or behind a byte that is no capital; `before` is
-- whether the byte in front of the text, if there is one, is a capital.
abbrev pub rbufsiz_alone : Bool → Bytes → Bool
rbufsiz_alone before [] = false
rbufsiz_alone before (c ∷ s) =
    let rest = rbufsiz_alone (is_upper c) s in
    if strncmp_eq 7 (codes "RBUFSIZ") (c ∷ s) then not before else rest

-- What a line of the reply to HELP SITE tells.
unfoldable pub learn_site : Bytes → Features → Features
unfolding strncmp_eq
learn_site cp f =
    let f1 =
      if contains (codes "RETRBUFSIZE") cp
      then record f { has_site_retrbufsize = available }
      else f in
    let f2 =
      if contains (codes "RBUFSZ") cp then record f1 { has_site_rbufsz = available } else f1 in
    let f3 = if rbufsiz_alone false cp then record f2 { has_site_rbufsiz = available } else f2 in
    let f4 =
      if contains (codes "STORBUFSIZE") cp
      then record f3 { has_site_storbufsize = available }
      else f3 in
    let f5 =
      if contains (codes "SBUFSIZ") cp then record f4 { has_site_sbufsiz = available } else f4 in
    let f6 =
      if contains (codes "SBUFSZ") cp then record f5 { has_site_sbufsz = available } else f5 in
    if contains (codes "BUFSIZE") cp then record f6 { has_site_bufsize = available } else f6

abbrev pub learn_sites : List Bytes → Features → Features
learn_sites [] f = f
learn_sites (l ∷ ls) f = learn_sites ls (learn_site l f)

-- HELP SITE, on the response of FEAT, and its end.
unfoldable pub ask_site : Response → M ℤ
unfolding re_init_response learn_site
ask_site rp c =
    let d = (re_init_response (some rp) c).1 in
    if is_not_available d.features.has_help_site
    then (do modify (done_with_response (some empty_response)); return k_no_err) d
    else (do
      answer ← r_cmd empty_response (codes "HELP SITE")
      (if int_eq answer.0 (pos 2)
          then modify (λ c. record c {
            features = learn_sites answer.1.msg (record c.features { has_help_site = available });
          })
          else return tt)
      modify (done_with_response (some answer.1))
      return k_no_err)
        d

-- A server without FEAT has no MLST, MLSD, MFMT or MFF.
abbrev pub no_feat : Conn → Conn
no_feat c = record c {
  has_mlst = not_available;
  has_mfmt = not_available;
  has_mff = not_available;
  features = record c.features { has_mlsd = not_available };
}

-- The reply to FEAT, of a result that is not negative.
unfoldable pub use_feat : ℤ → List Bytes → Conn → Option Conn
unfolding learn_lines
use_feat result msg c =
    if int_eq result (pos 2)
    then learn_lines msg (learn (λ f. record f { has_feat = available }) c)
    else some (no_feat c)

-- FEAT, behind InitResponse. Its response is not saved as the last result.
unfoldable pub ask_feat : Response → M ℤ
unfolding use_feat ask_site
ask_feat rp = do
  answer ← r_cmd (record rp { no_save = true }) (codes "FEAT")
  if is_neg answer.0
      then (do modify (done_with_response (some answer.1)); return answer.0)
      else (λ c. elim (use_feat answer.0 answer.1.msg c) [
        | none ↦ none
        | some d ↦ ask_site answer.1 d
      ])

-- FTPQueryFeatures behind its settings.
unfoldable pub query_server : M ℤ
unfolding ask_feat
query_server c =
    if is_not_available c.features.has_feat
    then some (k_no_err, c)
    else (do
      rp ← init_response
      elim rp [ none ↦ fail_with k_err_malloc_failed | some rp ↦ ask_feat rp ])
        c

-- FTPQueryFeatures
unfoldable pub query_features : M ℤ
unfolding assume_features query_server
query_features = check_magic (λ c.
    let d = when (c.server_type == server_type_microsoft_ftp) for_microsoft c in
    if c.server_type == server_type_net_ware_ftp
    then some (k_no_err, for_net_ware d)
    else query_server (assume_features d))
