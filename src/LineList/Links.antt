-- ===== src/LineList/Links.antt =====
-- The nodes of a line list on a heap, and how links to and from them are changed.
use libncftp.Base.{
  ℕ, ◌-◌, true, false, List, [], ◌∷◌, ◌++◌, Option, none, some, Bytes, ◌==◌, if◌then◌else◌, length,
  length-append, ◌≡◌, refl, sym, ap, ◌∙◌, arith,
}
use libncftp.LineList.{Node, Heap, LineList, update, at_address, if_present, points, unlink}

-- The lines of a list, each with its address.
abbrev pub Lines : Type 0
Lines = List (ℕ × Bytes)

abbrev pub head_or : Option ℕ → Lines → Option ℕ
head_or q [] = q
head_or q ((a, l) ∷ xs) = some a

abbrev pub last_or : Option ℕ → Lines → Option ℕ
last_or p [] = p
last_or p ((a, l) ∷ xs) = last_or (some a) xs

-- The nodes of the lines, linked both ways, between `p` and `q`.
abbrev pub Seg : Heap → Option ℕ → Lines → Option ℕ → Type 0
Seg h p [] q = Unit
Seg h p ((a, l) ∷ xs) q =
    (h a ≡ some (record { prev = p; next = head_or q xs; line = l })) × Seg h (some a) xs q

-- The address is none of the lines'.
abbrev pub Off : ℕ → Lines → Type 0
Off a [] = Unit
Off a ((b, l) ∷ xs) = ((b == a) ≡ false) × Off a xs

abbrev pub Apart : Lines → Type 0
Apart [] = Unit
Apart ((a, l) ∷ xs) = Off a xs × Apart xs

-- Each of the first lines is apart from all of the others.
abbrev pub Cross : Lines → Lines → Type 0
Cross [] ys = Unit
Cross ((a, l) ∷ xs) ys = Off a ys × Cross xs ys

pub record Holds (h : Heap) (list : LineList) (xs : Lines) : Type 0 where
  pub links : Seg h none xs none
  pub starts : list.first ≡ head_or none xs
  pub ends : list.last ≡ last_or none xs
  pub counted : list.n_lines ≡ length xs
  pub apart : Apart xs

pub eq_sym : (a b : ℕ) → (a == b) ≡ false → (b == a) ≡ false
eq_sym a b e = ground arith

-- What does not touch the lines leaves them.
pub Seg-agree :
    (h h' : Heap) (xs ys : Lines) (p q : Option ℕ)
    → Cross xs ys
    → ((b : ℕ) → Off b ys → h' b ≡ h b)
    → Seg h p xs q
    → Seg h' p xs q
Seg-agree h h' [] ys p q c same s = tt
Seg-agree h h' ((a, l) ∷ xs) ys p q (off, c) same (e, s) =
    (same a off ∙ e, Seg-agree h h' xs ys (some a) q c same s)

pub Seg-update :
    (h : Heap) (a : ℕ) (v : Option Node) (xs : Lines) (p q : Option ℕ)
    → Off a xs
    → Seg h p xs q
    → Seg (update a v h) p xs q
Seg-update h a v [] p q off s = tt
Seg-update h a v ((b, l) ∷ xs) p q (ne, off) (e, s) =
    (rw ne e, Seg-update h a v xs (some b) q off s)

pub Seg-split :
    (h : Heap) (xs ys : Lines) (p q : Option ℕ)
    → Seg h p (xs ++ ys) q
    → Seg h p xs (head_or q ys) × Seg h (last_or p xs) ys q
Seg-split h [] ys p q s = (tt, s)
Seg-split h ((a, l) ∷ []) ys p q (e, s) = ((e, tt), s)
Seg-split h ((a, l) ∷ x ∷ xs) ys p q (e, s) =
    let (s1, s2) = Seg-split h (x ∷ xs) ys (some a) q s in ((e, s1), s2)

pub Seg-join :
    (h : Heap) (xs ys : Lines) (p q : Option ℕ)
    → Seg h p xs (head_or q ys)
    → Seg h (last_or p xs) ys q
    → Seg h p (xs ++ ys) q
Seg-join h [] ys p q s t = t
Seg-join h ((a, l) ∷ []) ys p q (e, s) t = (e, t)
Seg-join h ((a, l) ∷ x ∷ xs) ys p q (e, s) t = (e, Seg-join h (x ∷ xs) ys (some a) q s t)

pub Apart-split : (xs ys : Lines) → Apart (xs ++ ys) → Apart xs × Cross xs ys × Apart ys
Apart-split [] ys d = (tt, tt, d)
Apart-split ((a, l) ∷ xs) ys (off, d) =
    let (o1, o2) = Off-split a xs ys off in
    let (d1, c, d2) = Apart-split xs ys d in ((o1, d1), (o2, c), d2)
  where
    Off-split : (a : ℕ) (xs ys : Lines) → Off a (xs ++ ys) → Off a xs × Off a ys
    Off-split a [] ys off = (tt, off)
    Off-split a ((b, l) ∷ xs) ys (ne, off) = let (o1, o2) = Off-split a xs ys off in ((ne, o1), o2)

-- A heap after a change of one of the lines' nodes: the segment with its other end, and the rest.
abbrev pub Retargeted : Option Heap → Heap → Lines → (Heap → Type 0) → Type 0
Retargeted out h xs P = (h' : Heap) × (out ≡ some h') × P h' × ((b : ℕ) → Off b xs → h' b ≡ h b)

pub self_eq : (a : ℕ) → (a == a) ≡ true
self_eq a = ground arith

pub update_here : (a : ℕ) (v : Option Node) (h : Heap) → update a v h a ≡ v
update_here a v h = rw (self_eq a) refl

pub update_off : (a b : ℕ) (v : Option Node) (h : Heap) → (a == b) ≡ false → update a v h b ≡ h b
update_off a b v h ne = rw (eq_sym a b ne) refl

pub at_address_lem :
    (change : Node → Node) (a : ℕ) (h : Heap) (node : Node)
    → h a ≡ some node
    → at_address change a h ≡ some (update a (some (change node)) h)
at_address_lem change a h node e =
    ap (λ o. elim o [ none ↦ none | some node ↦ some (update a (some (change node)) h) ]) e

-- The line behind is linked back to `p'`.
pub relink_first :
    (h : Heap) (ys : Lines) (p p' q : Option ℕ)
    → Seg h p ys q
    → Apart ys
    → Retargeted
        (if_present (λ n. record n { prev = p' }) (head_or none ys) h)
        h
        ys
        (λ h'. Seg h' p' ys q)
relink_first h [] p p' q s d = (h, refl, tt, λ b off. refl)
relink_first h ((a, l) ∷ ys) p p' q (e, s) (off, d) =
    let node : Node = record { prev = p'; next = head_or q ys; line = l } in
    (
      update a (some node) h,
      at_address_lem (λ n. record n { prev = p' }) a h _ e,
      (update_here a (some node) h, Seg-update h a (some node) ys (some a) q off s),
      λ b o. update_off a b (some node) h o.0,
    )

-- A change of the last line's node, if there is one.
abbrev pub to_last : (Node → Node) → Option ℕ → Lines → Heap → Option Heap
to_last change p [] h = some h
to_last change p (x ∷ xs) h = if_present change (last_or p (x ∷ xs)) h

-- The line in front is linked on to `q'`.
pub relink_last :
    (h : Heap) (xs : Lines) (p q q' : Option ℕ)
    → Seg h p xs q
    → Apart xs
    → Retargeted (to_last (λ n. record n { next = q' }) p xs h) h xs (λ h'. Seg h' p xs q')
relink_last h [] p q q' s d = (h, refl, tt, λ b off. refl)
relink_last h ((a, l) ∷ []) p q q' (e, s) d =
    let node : Node = record { prev = p; next = q'; line = l } in
    (
      update a (some node) h,
      at_address_lem (λ n. record n { next = q' }) a h _ e,
      (update_here a (some node) h, tt),
      λ b o. update_off a b (some node) h o.0,
    )
relink_last h ((a, l) ∷ x ∷ xs) p q q' (e, s) (off, d) =
    let (h', eq, s', same) = relink_last h (x ∷ xs) (some a) q q' s d in
    (h', eq, (same a off ∙ e, s'), λ b o. same b o.1)

pub to_last-none :
    (change : Node → Node) (xs : Lines) (h : Heap)
    → to_last change none xs h ≡ if_present change (last_or none xs) h
to_last-none change [] h = refl
to_last-none change (x ∷ xs) h = refl

pub Cross-sym : (xs ys : Lines) → Cross xs ys → Cross ys xs
Cross-sym xs [] c = tt
Cross-sym xs ((b, l) ∷ ys) c = (front xs c, Cross-sym xs ys (rest xs c))
  where
    front : (xs : Lines) → Cross xs ((b, l) ∷ ys) → Off b xs
    front [] c = tt
    front ((a, m) ∷ xs) ((ne, off), c) = (eq_sym b a ne, front xs c)

    rest : (xs : Lines) → Cross xs ((b, l) ∷ ys) → Cross xs ys
    rest [] c = tt
    rest ((a, m) ∷ xs) ((ne, off), c) = (off, rest xs c)

pub new_first :
    (xs ys : Lines) (a : ℕ) (l : Bytes)
    → Off a xs
    → (if points (head_or none (xs ++ ((a, l) ∷ ys))) a
        then head_or none ys
        else head_or none (xs ++ ((a, l) ∷ ys)))
      ≡ head_or none (xs ++ ys)
new_first [] ys a l off = rw (self_eq a) refl
new_first ((b, m) ∷ xs) ys a l (ne, off) = rw ne refl

pub points-Off :
    (b a : ℕ) (ys : Lines) → (b == a) ≡ false → Off a ys → points (last_or (some b) ys) a ≡ false
points-Off b a [] ne off = ne
points-Off b a ((c, l) ∷ ys) ne (ne', off) = points-Off c a ys ne' off

pub new_last :
    (a : ℕ) (ys : Lines) (p : Option ℕ)
    → Off a ys
    → (if points (last_or (some a) ys) a then p else last_or (some a) ys) ≡ last_or p ys
new_last a [] p off = rw (self_eq a) refl
new_last a ((b, l) ∷ ys) p (ne, off) = rw (points-Off b a ys ne off) refl

pub last_or-append :
    (p : Option ℕ) (xs ys : Lines) → last_or p (xs ++ ys) ≡ last_or (last_or p xs) ys
last_or-append p [] ys = refl
last_or-append p ((a, l) ∷ xs) ys = last_or-append (some a) xs ys

-- The two neighbours and the node itself.
pub unlink_lem :
    (h : Heap) (xs ys : Lines) (a : ℕ) (l : Bytes)
    → Seg h none xs (some a)
    → Seg h (some a) ys none
    → Apart xs
    → Apart ys
    → Cross xs ys
    → Off a xs
    → Off a ys
    → (h' : Heap) × (unlink h a
          (record { prev = last_or none xs; next = head_or none ys; line = l })
        ≡ some h')
      × Seg h' none (xs ++ ys) none
      × (h' a ≡ none)
unlink_lem h xs ys a l s1 s2 d1 d2 c o1 o2 =
    let (h1, e1, t2, same1) = relink_first h ys (some a) (last_or none xs) none s2 d2 in
    let t1 = Seg-agree h h1 xs ys none (some a) c same1 s1 in
    let (h2, e2, u1, same2) = relink_last h1 xs none (some a) (head_or none ys) t1 d1 in
    let u2 = Seg-agree h1 h2 ys xs (last_or none xs) none (Cross-sym xs ys c) same2 t2 in
    let h3 : Heap = update a none h2 in
    let forward : Node → Node = λ n. record n { next = head_or none ys } in
    let free : Option Heap → Option Heap =
      λ o. elim o [ none ↦ none | some h2 ↦ some (update a none h2) ] in
    (
      h3,
      ap (λ o. elim o [ none ↦ none | some h1 ↦ free (if_present forward (last_or none xs) h1) ]) e1
          ∙ ap free (sym (to_last-none forward xs h1) ∙ e2),
      Seg-join h3 xs ys none none (Seg-update h2 a none xs none (head_or none ys) o1 u1)
          (Seg-update h2 a none ys (last_or none xs) none o2 u2),
      update_here a none h2,
    )

pub length-removed :
    (xs ys : Lines) (x : ℕ × Bytes) → length (xs ++ (x ∷ ys)) - 1 ≡ length (xs ++ ys)
length-removed xs ys x = omega (arith, length-append xs (x ∷ ys), length-append xs ys)

pub Apart-join : (xs ys : Lines) → Apart xs → Cross xs ys → Apart ys → Apart (xs ++ ys)
Apart-join [] ys d1 c d2 = d2
Apart-join ((a, l) ∷ xs) ys (off, d1) (off', c) d2 =
    (Off-join a xs ys off off', Apart-join xs ys d1 c d2)
  where
    Off-join : (a : ℕ) (xs ys : Lines) → Off a xs → Off a ys → Off a (xs ++ ys)
    Off-join a [] ys o1 o2 = o2
    Off-join a ((b, l) ∷ xs) ys (ne, o1) o2 = (ne, Off-join a xs ys o1 o2)

abbrev pub last_addr : ℕ → Lines → ℕ
last_addr a [] = a
last_addr a ((b, l) ∷ xs) = last_addr b xs

pub last_or-some : (a : ℕ) (xs : Lines) → last_or (some a) xs ≡ some (last_addr a xs)
last_or-some a [] = refl
last_or-some a ((b, l) ∷ xs) = last_or-some b xs

pub Off-Cross : (a : ℕ) (l : Bytes) (xs : Lines) → Off a xs → Cross xs ((a, l) ∷ [])
Off-Cross a l [] off = tt
Off-Cross a l ((b, m) ∷ xs) (ne, off) = ((eq_sym b a ne, tt), Off-Cross a l xs off)
