-- ===== src/LineList.antt =====
-- libncftp/linelist.c with its pointers: InitLineList, AddLine, RemoveLine and DisposeLineListContents
-- on a heap.
--
-- An address is a number, and a heap maps the addresses that are allocated to their nodes. The text of
-- a line is freed with its node, and so it is part of the node. Reading through NULL, and of a node
-- that is not allocated, is a fault, `none`.
pub mod Links
pub mod Laws
use libncftp.Base.{
  ℕ, zero, suc, ◌+◌, ◌-◌, Bool, true, false, Option, none, some, Bytes, ◌==◌, if◌then◌else◌,
}

-- `FTPLine`
pub record Node : Type 0 where
  pub prev : Option ℕ
  pub next : Option ℕ
  pub line : Bytes

abbrev pub Heap : Type 0
Heap = ℕ → Option Node

-- `FTPLineList`
pub record LineList : Type 0 where
  pub first : Option ℕ
  pub last : Option ℕ
  pub n_lines : ℕ

abbrev pub update : ℕ → Option Node → Heap → Heap
update a node h b = if b == a then node else h b

-- A change of the node at an address.
abbrev pub at_address : (Node → Node) → ℕ → Heap → Option Heap
at_address change a h = elim (h a) [
  | none ↦ none
  | some node ↦ some (update a (some (change node)) h)
]

-- `if (p != NULL) p->… = …;`
abbrev pub if_present : (Node → Node) → Option ℕ → Heap → Option Heap
if_present change none h = some h
if_present change (some a) h = at_address change a h

-- `p == a`
abbrev pub points : Option ℕ → ℕ → Bool
points none a = false
points (some b) a = b == a

-- InitLineList
abbrev pub init_line_list : LineList
init_line_list = record { first = none; last = none; n_lines = 0 }

abbrev pub change_list : LineList → ℕ → Node → LineList
change_list list kill_me node = record {
  first = if points list.first kill_me then node.next else list.first;
  last = if points list.last kill_me then node.prev else list.last;
  n_lines = list.n_lines - 1;
}

-- The two neighbours are linked past the node, and it is freed.
abbrev pub unlink : Heap → ℕ → Node → Option Heap
unlink h kill_me node = elim (if_present (λ n. record n { prev = node.prev }) node.next h) [
  | none ↦ none
  | some h1 ↦ elim (if_present (λ n. record n { next = node.next }) node.prev h1) [
    | none ↦ none
    | some h2 ↦ some (update kill_me none h2)
  ]
]

abbrev pub removed : LineList → ℕ → Node → Option Heap → Option (Option ℕ × Heap × LineList)
removed list kill_me node none = none
removed list kill_me node (some h) = some (node.next, h, change_list list kill_me node)

-- RemoveLine. `nLines` counts the line that is removed, so that it is at least 1.
unfoldable pub remove_line : Heap → LineList → ℕ → Option (Option ℕ × Heap × LineList)
remove_line h list kill_me = elim (h kill_me) [
  | none ↦ none
  | some node ↦ removed list kill_me node (unlink h kill_me node)
]

abbrev pub linked : LineList → ℕ → Option Heap → Option (Heap × LineList)
linked list a none = none
linked list a (some h) = some (h, record list { last = some a; n_lines = list.n_lines + 1 })

-- The line goes behind the last one.
abbrev pub append_behind : Option ℕ → Heap → LineList → ℕ → Bytes → Option (Heap × LineList)
append_behind none h list a text = none
append_behind (some l) h list a text = linked list a (
    at_address (λ n. record n { next = some a }) l
      (update a (some (record { prev = some l; next = none; line = text })) h))

-- AddLine, once `malloc` has given the node `a`, and StrDup the text.
unfoldable pub append_line : Heap → LineList → ℕ → Bytes → Option (Heap × LineList)
append_line h list a text = elim list.first [
  | none ↦ some (
    update a (some (record { prev = none; next = none; line = text })) h,
    record { first = some a; last = some a; n_lines = 1 },
  )
  | some _ ↦ append_behind list.last h list a text
]

-- AddLine. `node` is what `malloc` gives, and `copied` whether StrDup has memory.
unfoldable pub add_line_to :
    Heap → LineList → Option ℕ → Bool → Bytes → Option (Option ℕ × Heap × LineList)
unfolding append_line
add_line_to h list none copied text = some (none, h, list)
add_line_to h list (some a) false text = some (none, update a none h, list)
add_line_to h list (some a) true text = elim (append_line h list a text) [
  | none ↦ none
  | some (h', list') ↦ some (some a, h', list')
]

-- The loop of DisposeLineListContents, for so many rounds.
unfoldable pub dispose_from : ℕ → Option ℕ → Heap → Option Heap
dispose_from n none h = some h
dispose_from zero (some a) h = none
dispose_from (suc n) (some a) h = elim (h a) [
  | none ↦ none
  | some node ↦ dispose_from n node.next (update a none h)
]
