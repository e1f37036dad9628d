-- ===== src/Opening/Features/Laws.antt =====
-- What is learned of a reply to FEAT.
use libncftp.Base.{
  ℕ, Bool, true, false, ◌&&◌, ◌||◌, List, [], ◌∷◌, none, some, Bytes, codes, ◌==◌, if◌then◌else◌,
  length, drop, ◌≡◌, refl, sym, ◌∙◌, ap, inl, inr, arith, Bool-cases,
}
use libncftp.Conn.{Availability, available, Conn}
use libncftp.Commands.Glob.{strncasecmp_eq, to_lower}
use libncftp.Opening.Features.Mlst.{begins, skip_spaces, examine_mlst_features}
use libncftp.Opening.Features.{atoi, learn_word, learn_lines}

-- Whether some text can begin with both words.
abbrev clash : Bytes → Bytes → Bool
clash (x ∷ v) (y ∷ w) = let rest = clash v w in if to_lower x == to_lower y then rest else false
clash _ _ = true

apart_step :
    (a b c : ℕ) (r s t : Bool)
    → (r ≡ false → s ≡ true → t ≡ false)
    → (if a == b then r else false) ≡ false
    → (if c == a then s else false) ≡ true
    → (if c == b then t else false) ≡ false
apart_step a b c r s t behind e h = ground (arith, behind)

apart : (v w cp : Bytes) → clash v w ≡ false → begins v cp ≡ true → begins w cp ≡ false
unfolding strncasecmp_eq
apart (x ∷ v) (y ∷ w) (z ∷ cp) e h =
    apart_step (to_lower x) (to_lower y) (to_lower z) _ _ _ (apart v w cp) e h
apart (x ∷ v) (y ∷ w) [] e h = refl
apart [] w cp e h = absurd (cc)
apart (x ∷ v) [] cp e h = absurd (cc)

-- The text begins with none of the words.
abbrev Silent : List Bytes → Bytes → Type 0
Silent [] cp = Unit
Silent (w ∷ ws) cp = (begins w cp ≡ false) × Silent ws cp

abbrev clashes : Bytes → List Bytes → Bool
clashes v [] = false
clashes v (w ∷ ws) = clash v w || clashes v ws

apart_all :
    (v : Bytes) (ws : List Bytes) (cp : Bytes)
    → clashes v ws ≡ false
    → begins v cp ≡ true
    → Silent ws cp
apart_all v [] cp e h = tt
apart_all v (w ∷ ws) cp e h = elim (Bool-cases (clash v w)) [
  | inl both ↦ absurd (cc)
  | inr free ↦ (apart v w cp free h, apart_all v ws cp (rw free at e) h)
]

abbrev pub upd : Bool → Availability → Availability
upd heard x = if heard then available else x

abbrev pub is_bare : Bytes → Bool
is_bare cp = begins (codes "MLST") cp && length cp == 4

abbrev pub facts_of : Bytes → Conn → ℕ
facts_of cp c = (examine_mlst_features (drop 5 cp) c).mls_features

-- What a line tells, each command on its own.
abbrev pub told : Bytes → Conn → Conn
told cp c = record c {
  has_size = upd (begins (codes "SIZE") cp) c.has_size;
  has_mdtm = upd (begins (codes "MDTM") cp) c.has_mdtm;
  has_mfmt = upd (begins (codes "MFMT") cp) c.has_mfmt;
  has_mff = upd (begins (codes "MFF") cp) c.has_mff;
  has_site_utime = upd (begins (codes "UTIME") cp) c.has_site_utime;
  has_mlst = upd (begins (codes "MLST") cp) c.has_mlst;
  mls_features = if begins (codes "MLST") cp then facts_of cp c else c.mls_features;
  ietf_compat_level =
      if begins (codes "Compliance Level: ") cp then atoi (drop 18 cp) else c.ietf_compat_level;
  features = record c.features {
    has_pasv = upd (begins (codes "PASV") cp) c.features.has_pasv;
    has_rest = upd (begins (codes "REST") cp) c.features.has_rest;
    has_mlsd = upd (begins (codes "MLST") cp) c.features.has_mlsd;
    has_clnt = upd (begins (codes "CLNT") cp) c.features.has_clnt;
  };
}

learn_word_lem :
    (cp : Bytes) (c : Conn) → learn_word cp c ≡ (if is_bare cp then none else some (told cp c))
unfolding learn_word examine_mlst_features
learn_word_lem cp c = elim (Bool-cases (begins (codes "PASV") cp)) [
  | inl h ↦
      let (
        n_size,
        (n_mdtm, (n_mfmt, (n_mff, (n_rest, (n_utime, (n_mlst, (n_clnt, (n_level, _)))))))),
      ) =
        apart_all (codes "PASV")
          (codes "SIZE"
            ∷ codes "MDTM"
            ∷ codes "MFMT"
            ∷ codes "MFF"
            ∷ codes "REST"
            ∷ codes "UTIME"
            ∷ codes "MLST"
            ∷ codes "CLNT"
            ∷ codes "Compliance Level: "
            ∷ [])
          cp refl h in
      rw (h, n_size, n_mdtm, n_mfmt, n_mff, n_rest, n_utime, n_mlst, n_clnt, n_level) refl
  | inr n_pasv ↦ elim (Bool-cases (begins (codes "SIZE") cp)) [
    | inl h ↦
        let (n_mdtm, (n_mfmt, (n_mff, (n_rest, (n_utime, (n_mlst, (n_clnt, (n_level, _)))))))) =
          apart_all (codes "SIZE")
            (codes "MDTM"
              ∷ codes "MFMT"
              ∷ codes "MFF"
              ∷ codes "REST"
              ∷ codes "UTIME"
              ∷ codes "MLST"
              ∷ codes "CLNT"
              ∷ codes "Compliance Level: "
              ∷ [])
            cp refl h in
        rw (n_pasv, h, n_mdtm, n_mfmt, n_mff, n_rest, n_utime, n_mlst, n_clnt, n_level) refl
    | inr n_size ↦ elim (Bool-cases (begins (codes "MDTM") cp)) [
      | inl h ↦
          let (n_mfmt, (n_mff, (n_rest, (n_utime, (n_mlst, (n_clnt, (n_level, _))))))) =
            apart_all (codes "MDTM")
              (codes "MFMT"
                ∷ codes "MFF"
                ∷ codes "REST"
                ∷ codes "UTIME"
                ∷ codes "MLST"
                ∷ codes "CLNT"
                ∷ codes "Compliance Level: "
                ∷ [])
              cp refl h in
          rw (n_pasv, n_size, h, n_mfmt, n_mff, n_rest, n_utime, n_mlst, n_clnt, n_level) refl
      | inr n_mdtm ↦ elim (Bool-cases (begins (codes "MFMT") cp)) [
        | inl h ↦
            let (n_mff, (n_rest, (n_utime, (n_mlst, (n_clnt, (n_level, _)))))) =
              apart_all (codes "MFMT")
                (codes "MFF"
                  ∷ codes "REST"
                  ∷ codes "UTIME"
                  ∷ codes "MLST"
                  ∷ codes "CLNT"
                  ∷ codes "Compliance Level: "
                  ∷ [])
                cp refl h in
            rw (n_pasv, n_size, n_mdtm, h, n_mff, n_rest, n_utime, n_mlst, n_clnt, n_level) refl
        | inr n_mfmt ↦ elim (Bool-cases (begins (codes "MFF") cp)) [
          | inl h ↦
              let (n_rest, (n_utime, (n_mlst, (n_clnt, (n_level, _))))) =
                apart_all (codes "MFF")
                  (codes "REST"
                    ∷ codes "UTIME"
                    ∷ codes "MLST"
                    ∷ codes "CLNT"
                    ∷ codes "Compliance Level: "
                    ∷ [])
                  cp refl h in
              rw (n_pasv, n_size, n_mdtm, n_mfmt, h, n_rest, n_utime, n_mlst, n_clnt, n_level) refl
          | inr n_mff ↦ elim (Bool-cases (begins (codes "REST") cp)) [
            | inl h ↦
                let (n_utime, (n_mlst, (n_clnt, (n_level, _)))) =
                  apart_all (codes "REST")
                    (codes "UTIME" ∷ codes "MLST" ∷ codes "CLNT" ∷ codes "Compliance Level: " ∷ [])
                    cp refl h in
                rw (n_pasv, n_size, n_mdtm, n_mfmt, n_mff, h, n_utime, n_mlst, n_clnt, n_level) refl
            | inr n_rest ↦ elim (Bool-cases (begins (codes "UTIME") cp)) [
              | inl h ↦
                  let (n_mlst, (n_clnt, (n_level, _))) =
                    apart_all (codes "UTIME")
                      (codes "MLST" ∷ codes "CLNT" ∷ codes "Compliance Level: " ∷ []) cp refl h in
                  rw (n_pasv, n_size, n_mdtm, n_mfmt, n_mff, n_rest, h, n_mlst, n_clnt, n_level)
                    refl
              | inr n_utime ↦ elim (Bool-cases (begins (codes "MLST") cp)) [
                | inl h ↦
                    let (n_clnt, (n_level, _)) =
                      apart_all (codes "MLST") (codes "CLNT" ∷ codes "Compliance Level: " ∷ []) cp
                        refl h in
                    rw (n_pasv, n_size, n_mdtm, n_mfmt, n_mff, n_rest, n_utime, h, n_clnt, n_level)
                      refl
                | inr n_mlst ↦ elim (Bool-cases (begins (codes "CLNT") cp)) [
                  | inl h ↦
                      let (n_level, _) =
                        apart_all (codes "CLNT") (codes "Compliance Level: " ∷ []) cp refl h in
                      rw
                        (n_pasv, n_size, n_mdtm, n_mfmt, n_mff, n_rest, n_utime, n_mlst, h, n_level)
                        refl
                  | inr n_clnt ↦ elim (Bool-cases (begins (codes "Compliance Level: ") cp)) [
                    | inl h ↦
                        rw
                          (
                            n_pasv, n_size, n_mdtm, n_mfmt, n_mff, n_rest, n_utime, n_mlst, n_clnt,
                            h,
                          )
                          refl
                    | inr n_level ↦
                        rw
                          (
                            n_pasv, n_size, n_mdtm, n_mfmt, n_mff, n_rest, n_utime, n_mlst, n_clnt,
                            n_level,
                          )
                          refl
                  ]
                ]
              ]
            ]
          ]
        ]
      ]
    ]
  ]
]

-- Whether some line says the word, after its spaces.
abbrev pub says : Bytes → List Bytes → Bool
says w [] = false
says w (l ∷ ls) = begins w (skip_spaces l) || says w ls

-- The facts, and the level, of the last line that tells them.
abbrev pub last_facts : List Bytes → Conn → ℕ
last_facts [] c = c.mls_features
last_facts (l ∷ ls) c = last_facts ls (told (skip_spaces l) c)

abbrev pub last_level : List Bytes → Conn → ℕ
last_level [] c = c.ietf_compat_level
last_level (l ∷ ls) c = last_level ls (told (skip_spaces l) c)

-- A command is there if a line says so, and as before otherwise.
abbrev pub told_all : List Bytes → Conn → Conn
told_all ls c = record c {
  has_size = upd (says (codes "SIZE") ls) c.has_size;
  has_mdtm = upd (says (codes "MDTM") ls) c.has_mdtm;
  has_mfmt = upd (says (codes "MFMT") ls) c.has_mfmt;
  has_mff = upd (says (codes "MFF") ls) c.has_mff;
  has_site_utime = upd (says (codes "UTIME") ls) c.has_site_utime;
  has_mlst = upd (says (codes "MLST") ls) c.has_mlst;
  mls_features = last_facts ls c;
  ietf_compat_level = last_level ls c;
  features = record c.features {
    has_pasv = upd (says (codes "PASV") ls) c.features.has_pasv;
    has_rest = upd (says (codes "REST") ls) c.features.has_rest;
    has_mlsd = upd (says (codes "MLST") ls) c.features.has_mlsd;
    has_clnt = upd (says (codes "CLNT") ls) c.features.has_clnt;
  };
}

pub upd-or : (x : Availability) (a b : Bool) → upd (a || b) x ≡ upd b (upd a x)
upd-or x true true = refl
upd-or x true false = refl
upd-or x false b = refl

told_all_step :
    (l : Bytes) (ls : List Bytes) (c : Conn)
    → told_all (l ∷ ls) c ≡ told_all ls (told (skip_spaces l) c)
told_all_step l ls c = simp upd-or refl

abbrev pub any_bare : List Bytes → Bool
any_bare [] = false
any_bare (l ∷ ls) = is_bare (skip_spaces l) || any_bare ls

-- Of the lines of a reply to FEAT, where none is the word MLST alone, FTPQueryFeatures learns exactly
-- the commands that some line begins with, after its spaces and in either case of letters, whatever
-- the order of the lines: what no line tells stays as it was. The facts of MLST and the compliance
-- level are those of the last line that tells them. A line that is the word MLST alone is a fault.
pub learn_lines_lem :
    (ls : List Bytes) (c : Conn)
    → learn_lines ls c ≡ (if any_bare ls then none else some (told_all ls c))
unfolding learn_lines
learn_lines_lem [] c = refl
learn_lines_lem (l ∷ ls) c =
    let cp = skip_spaces l in
    ap (λ o. elim o [ none ↦ none | some d ↦ learn_lines ls d ]) (learn_word_lem cp c)
    ∙ (elim (Bool-cases (is_bare cp)) [
      | inl bare ↦ rw bare refl
      | inr full ↦ rw full (
          learn_lines_lem ls (told cp c)
          ∙ ap (λ d. if any_bare ls then none else some d) (sym (told_all_step l ls c)))
    ])
