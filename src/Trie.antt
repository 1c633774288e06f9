-- ===== src/Trie.antt =====
-- components/trie/trie.go: the trie of sensitive words; its laws are in the modules below.
-- A keyword is the list of its runes. `sync.Map` is an association list; a child pointer is owned
-- by its parent alone, so a mutated child is stored back in its parent.
pub mod Maps
pub mod Words
pub mod Removal
pub mod Listing
pub mod Query
pub mod Tests
use j7f.Base.{
  Text, ℕ, Bool, true, false, not, List, [], ◌∷◌, ◌++◌, Option, none, some, ◌==◌, if◌then◌else◌,
}

mutual
  pub data Node : Type 0 where
    node : Children → Bool → Node

  pub data Children : Type 0 where
    no_child : Children
    child : ℕ → Node → Children → Children

abbrev pub children : Node → Children
children (node cs e) = cs

abbrev pub is_end : Node → Bool
is_end (node cs e) = e

-- `Load`, the store half of `LoadOrStore`, and `Delete` of the map.
pub load : ℕ → Children → Option Node
load c no_child = none
load c (child d n cs) = if d == c then some n else load c cs

pub store : ℕ → Node → Children → Children
store c n no_child = child c n no_child
store c n (child d m cs) = if d == c then child d n cs else child d m (store c n cs)

pub delete : ℕ → Children → Children
delete c no_child = no_child
delete c (child d m cs) = if d == c then delete c cs else child d m (delete c cs)

mutual
  -- A `*Trie` that a white list field holds may be nil.
  pub data Trie : Type 0 where
    trie : Node → Bool → TriePtr → TriePtr → Trie

  pub data TriePtr : Type 0 where
    nil : TriePtr
    ptr : Trie → TriePtr

abbrev pub root : Trie → Node
root (trie n check p s) = n

abbrev pub set_root : Trie → Node → Trie
set_root (trie n check p s) m = trie m check p s

abbrev pub new_node : Node
new_node = node no_child false

abbrev pub new_trie : Trie
new_trie = trie new_node false nil nil

abbrev pub load_or_new : ℕ → Children → Node
load_or_new c cs = elim (load c cs) [ none ↦ new_node | some n ↦ n ]

-- The loop of `Add`, and the write of `End` behind it.
pub add_chars : Text → Node → Node
add_chars [] (node cs e) = node cs true
add_chars (c ∷ w) (node cs e) = node (store c (add_chars w (load_or_new c cs)) cs) e

pub add : Text → Trie → Trie
unfolding add_chars
add [] t = t
add (c ∷ w) t = set_root t (add_chars (c ∷ w) (root t))

-- What `cycleDel` does behind its recursive call: the child, as the call left it, is deleted if
-- the call says so.
abbrev pub unwind : ℕ → Children → Bool → Node × Bool → Node × Bool
unwind c cs e (n, true) = (node (delete c cs) e, true)
unwind c cs e (n, false) = (node (store c n cs) e, false)

-- `chars[index:]` is the first argument, and never empty.
pub cycle_del : Text → Node → Node × Bool
cycle_del [] n = (n, false)
cycle_del (c ∷ []) (node cs e) = elim (load c cs) [
  | none ↦ (node cs e, false)
  | some n ↦ if is_end n then (node (delete c cs) e, true) else (node cs e, false)
]
cycle_del (c ∷ d ∷ w) (node cs e) = elim (load c cs) [
  | none ↦ (node cs e, false)
  | some n ↦
      let deeper = unwind c cs e (cycle_del (d ∷ w) n) in
      if not (is_end n) then deeper else (node (delete c cs) e, true)
]

pub del : Text → Trie → Trie
unfolding cycle_del
del [] t = t
del (c ∷ w) t = set_root t (cycle_del (c ∷ w) (root t)).0

-- `cycleRead` appends to `words`; `Range` visits the entries in the order of the list.
mutual
  pub cycle_read : Node → List Text → Text → List Text
  cycle_read (node cs e) words parent = read_range cs words parent

  pub read_range : Children → List Text → Text → List Text
  read_range no_child words parent = words
  read_range (child c n cs) words parent =
      let word = parent ++ c ∷ [] in
      let kept = if is_end n then words ++ word ∷ [] else words in
      read_range cs (cycle_read n kept word) parent

pub read_all : Trie → List Text
unfolding cycle_read
read_all t = cycle_read (root t) [] []

-- Independent of the code: the words that the tree holds.
pub contains : Text → Node → Bool
contains [] (node cs e) = e
contains (c ∷ w) (node cs e) = elim (load c cs) [ none ↦ false | some n ↦ contains w n ]
