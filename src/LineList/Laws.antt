-- ===== src/LineList/Laws.antt =====
-- RemoveLine, AddLine and DisposeLineListContents remove, append and free the lines of a list.
use libncftp.Base.{
  ℕ, ◌+◌, [], ◌∷◌, ◌++◌, Option, none, some, Bytes, length, length-append, ◌≡◌, refl, sym, ap, ◌∙◌,
  arith,
}
use libncftp.LineList.{
  Node, Heap, LineList, update, if_present, change_list, unlink, removed, remove_line, append_line,
  append_behind, linked, dispose_from,
}
use libncftp.LineList.Links.{
  Lines, head_or, last_or, Seg, Off, Apart, Holds, Seg-update, Seg-split, Seg-join, Apart-split,
  update_here, update_off, relink_last, Cross-sym, new_first, new_last, last_or-append, unlink_lem,
  length-removed, Apart-join, last_addr, last_or-some, Off-Cross,
}

-- RemoveLine of a line in the middle, at the front or at the end takes exactly that line out of what
-- the list holds, in both directions of its links, frees its node, and returns the line behind it.
pub remove_line_lem :
    (h : Heap) (list : LineList) (xs ys : Lines) (a : ℕ) (l : Bytes)
    → Holds h list (xs ++ ((a, l) ∷ ys))
    → (h' : Heap) × (list' : LineList) × (remove_line h list a ≡ some (head_or none ys, h', list'))
      × Holds h' list' (xs ++ ys)
      × (h' a ≡ none)
unfolding remove_line
remove_line_lem h list xs ys a l w =
    let (s1, (e, s2)) = Seg-split h xs ((a, l) ∷ ys) none none w.links in
    let (d1, c, (o2, d2)) = Apart-split xs ((a, l) ∷ ys) w.apart in
    let c' = Cross-sym xs ((a, l) ∷ ys) c in
    let cross = Cross-sym ys xs c'.1 in
    let node : Node = record { prev = last_or none xs; next = head_or none ys; line = l } in
    let (h', eq, s, gone) = unlink_lem h xs ys a l s1 s2 d1 d2 cross c'.0 o2 in
    (
      h',
      change_list list a node,
      ap (λ o. elim o [ none ↦ none | some n ↦ removed list a n (unlink h a n) ]) e
          ∙ ap (removed list a node) eq,
      record {
        links = s;
        starts = rw w.starts (new_first xs ys a l c'.0);
        ends = rw w.ends (
            rw (last_or-append none xs ((a, l) ∷ ys), last_or-append none xs ys)
              (new_last a ys (last_or none xs) o2));
        counted = rw w.counted (length-removed xs ys (a, l));
        apart = Apart-join xs ys d1 cross d2;
      },
      gone,
    )

-- AddLine, given memory at an address that is not the list's, puts the line behind the others, linked
-- both ways.
pub append_line_lem :
    (h : Heap) (list : LineList) (xs : Lines) (a : ℕ) (text : Bytes)
    → Holds h list xs
    → Off a xs
    → (h' : Heap) × (list' : LineList) × (append_line h list a text ≡ some (h', list'))
      × Holds h' list' (xs ++ ((a, text) ∷ []))
unfolding append_line
append_line_lem h list [] a text w off =
    let node : Node = record { prev = none; next = none; line = text } in
    (
      update a (some node) h,
      record { first = some a; last = some a; n_lines = 1 },
      rw w.starts refl,
      record {
        links = (update_here a (some node) h, tt);
        starts = refl;
        ends = refl;
        counted = refl;
        apart = (tt, tt);
      },
    )
append_line_lem h list ((b, m) ∷ xs) a text w off =
    let all : Lines = (b, m) ∷ xs in
    let end = last_addr b xs in
    let node : Node = record { prev = some end; next = none; line = text } in
    let h1 : Heap = update a (some node) h in
    let forward : Node → Node = λ n. record n { next = some a } in
    let s1 = Seg-update h a (some node) all none none off w.links in
    let (h2, e2, s2, same) = relink_last h1 all none none (some a) s1 w.apart in
    let begun : Option (Heap × LineList) = some (
      update a (some (record { prev = none; next = none; line = text })) h,
      record { first = some a; last = some a; n_lines = 1 },
    ) in
    (
      h2,
      record list { last = some a; n_lines = list.n_lines + 1 },
      ap (λ o. elim o [ none ↦ begun | some _ ↦ append_behind list.last h list a text ]) w.starts
          ∙ ap (λ o. append_behind o h list a text) (w.ends ∙ last_or-some b xs)
          ∙ ap (linked list a) (ap (λ o. if_present forward o h1) (sym (last_or-some b xs)) ∙ e2),
      record {
        links = Seg-join h2 all ((a, text) ∷ []) none none s2 (
          same a off
              ∙ update_here a (some node) h
              ∙ ap (λ o. some (record { prev = o; next = none; line = text }))
                  (sym (last_or-some b xs)),
          tt,
        );
        starts = w.starts;
        ends = sym (last_or-append none all ((a, text) ∷ []));
        counted = omega (arith, w.counted, length-append all ((a, text) ∷ []));
        apart = Apart-join all ((a, text) ∷ []) w.apart (Off-Cross a text all off) (tt, tt);
      },
    )

-- The nodes are freed.
abbrev pub Gone : Heap → Lines → Type 0
Gone h [] = Unit
Gone h ((a, l) ∷ xs) = (h a ≡ none) × Gone h xs

-- DisposeLineListContents frees every node of the list, in as many rounds as it has lines, and touches
-- nothing else.
pub dispose_from_lem :
    (h : Heap) (xs : Lines) (p : Option ℕ)
    → Seg h p xs none
    → Apart xs
    → (h' : Heap) × (dispose_from (length xs) (head_or none xs) h ≡ some h')
      × Gone h' xs
      × ((b : ℕ) → Off b xs → h' b ≡ h b)
unfolding dispose_from
dispose_from_lem h [] p s d = (h, refl, tt, λ b off. refl)
dispose_from_lem h ((a, l) ∷ xs) p (e, s) (off, d) =
    let h1 : Heap = update a none h in
    let (h', eq, gone, same) =
      dispose_from_lem h1 xs (some a) (Seg-update h a none xs (some a) none off s) d in
    (
      h',
      ap (λ o. elim o [ none ↦ none | some n ↦ dispose_from (length xs) n.next (update a none h) ])
            e
          ∙ eq,
      (same a off ∙ update_here a none h, gone),
      λ b o. same b o.1 ∙ update_off a b none h o.0,
    )
