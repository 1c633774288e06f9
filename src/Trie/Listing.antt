-- ===== src/Trie/Listing.antt =====
-- What `ReadAll` lists.
use j7f.Base.{
  Text, same_text, ℕ, ◌≡◌, refl, Bool, false, ◌&&◌, ◌||◌, List, [], ◌∷◌, ◌++◌, none, some, arith,
  ◌==◌, if◌then◌else◌, Option-cases, Bool-cases, subst, inl, inr,
}
use j7f.Trie.{
  Node, node, Children, no_child, child, Trie, trie, load, store, delete, root, is_end, children,
  cycle_read, read_range, read_all, load_or_new, add_chars, add, del, contains,
}
use j7f.Trie.Maps.{load-store, load-delete}
use j7f.Trie.Removal.{cycle_del_lem, prefix_found}

-- No key stands twice in a map, as in a `sync.Map`.
abbrev mutual
  pub IsWf : Node → Type 0
  IsWf (node cs e) = AreWf cs

  pub AreWf : Children → Type 0
  AreWf no_child = Unit
  AreWf (child c n cs) = (load c cs ≡ none) × IsWf n × AreWf cs

abbrev pub has : Text → List Text → Bool
has v [] = false
has v (w ∷ ws) = same_text w v || has v ws

has-append : (v : Text) (ws xs : List Text) → has v (ws ++ xs) ≡ (has v ws || has v xs)
has-append v [] xs = refl
has-append v (w ∷ ws) xs = ground (arith, has-append v ws xs)

abbrev below : Children → Text → Bool
below cs [] = false
below cs (d ∷ r) = contains (d ∷ r) (node cs false)

-- The text is `parent` and then a rest that the children hold.
abbrev after : Children → Text → Text → Bool
after cs [] v = below cs v
after cs (c ∷ p) [] = false
after cs (c ∷ p) (d ∷ v) = c == d && after cs p v

below-child :
    (c d : ℕ) (n : Node) (cs : Children) (u : Text)
    → load c cs ≡ none
    → ((is_end n && same_text (c ∷ []) (d ∷ u))
        || after (children n) (c ∷ []) (d ∷ u)
        || below cs (d ∷ u))
      ≡ below (child c n cs) (d ∷ u)
unfolding load contains
below-child c d (node ds f) cs [] h = ground arith
below-child c d (node ds f) cs (x ∷ u) h = ground arith

after-child :
    (c : ℕ) (n : Node) (cs : Children) (p v : Text)
    → load c cs ≡ none
    → ((is_end n && same_text (p ++ c ∷ []) v)
        || after (children n) (p ++ c ∷ []) v
        || after cs p v)
      ≡ after (child c n cs) p v
after-child c n cs [] [] h = ground arith
after-child c n cs [] (d ∷ u) h = below-child c d n cs u h
after-child c n cs (x ∷ p) [] h = ground arith
after-child c n cs (x ∷ p) (d ∷ v) h = ground (arith, after-child c n cs p v h)

after-no_child : (p v : Text) → after no_child p v ≡ false
unfolding load contains
after-no_child [] [] = refl
after-no_child [] (d ∷ v) = refl
after-no_child (c ∷ p) [] = refl
after-no_child (c ∷ p) (d ∷ v) = ground (arith, after-no_child p v)

mutual
  unfolding cycle_read

  has-cycle_read :
      (n : Node) (ws : List Text) (p v : Text)
      → IsWf n
      → has v (cycle_read n ws p) ≡ (has v ws || after (children n) p v)
  has-cycle_read (node cs e) ws p v h = has-read_range cs ws p v h

  has-read_range :
      (cs : Children) (ws : List Text) (p v : Text)
      → AreWf cs
      → has v (read_range cs ws p) ≡ (has v ws || after cs p v)
  has-read_range no_child ws p v h = ground (arith, after-no_child p v)
  has-read_range (child c n cs) ws p v h =
      let word = p ++ c ∷ [] in
      let kept = if is_end n then ws ++ word ∷ [] else ws in
      ground (
        arith,
        has-read_range cs (cycle_read n kept word) p v h.2,
        has-cycle_read n kept word v h.1,
        has-append v ws (word ∷ []),
        after-child c n cs p v h.0,
      )

-- If no map of the trie has a key twice, `ReadAll` lists a text that is not empty exactly if it
-- is a word of the trie.
has-read_all :
    (d : ℕ) (v : Text) (t : Trie)
    → IsWf (root t)
    → has (d ∷ v) (read_all t) ≡ contains (d ∷ v) (root t)
unfolding read_all contains
has-read_all d v (trie (node cs e) check p s) h = has-cycle_read (node cs e) [] [] (d ∷ v) h

load-IsWf : (c : ℕ) (n : Node) (cs : Children) → AreWf cs → load c cs ≡ some n → IsWf n
unfolding load
load-IsWf c n no_child h e = cc
load-IsWf c n (child d m cs) h e = elim (Bool-cases (d == c)) [
  | inl q ↦ let p : m ≡ n = ground arith in subst IsWf p h.1
  | inr q ↦ load-IsWf c n cs h.2 (ground arith)
]

store-AreWf : (c : ℕ) (n : Node) (cs : Children) → AreWf cs → IsWf n → AreWf (store c n cs)
unfolding store load
store-AreWf c n no_child h k = (refl, k, tt)
store-AreWf c n (child d m cs) h k = elim (Bool-cases (d == c)) [
  | inl q ↦ rw q (h.0, k, h.2)
  | inr q ↦ rw q (ground (arith, load-store c d n cs, h.0), h.1, store-AreWf c n cs h.2 k)
]

delete-AreWf : (c : ℕ) (cs : Children) → AreWf cs → AreWf (delete c cs)
unfolding delete load
delete-AreWf c no_child h = tt
delete-AreWf c (child d m cs) h = elim (Bool-cases (d == c)) [
  | inl q ↦ rw q (delete-AreWf c cs h.2)
  | inr q ↦ rw q (ground (arith, load-delete c d cs, h.0), h.1, delete-AreWf c cs h.2)
]

load_or_new-IsWf : (c : ℕ) (cs : Children) → AreWf cs → IsWf (load_or_new c cs)
load_or_new-IsWf c cs h = elim (Option-cases (load c cs)) [
  | inl q ↦ rw (q, load_or_new) tt
  | inr (n, q) ↦ rw (q, load_or_new) (load-IsWf c n cs h q)
]

add_chars-IsWf : (w : Text) (n : Node) → IsWf n → IsWf (add_chars w n)
unfolding add_chars
add_chars-IsWf [] (node cs e) h = h
add_chars-IsWf (c ∷ w) (node cs e) h =
    store-AreWf c (add_chars w (load_or_new c cs)) cs h
      (add_chars-IsWf w (load_or_new c cs) (load_or_new-IsWf c cs h))

-- If no map of a trie has a key twice, then so it is after `Add` and after `Del`.
pub add-del-IsWf :
    (w : Text) (t : Trie) → IsWf (root t) → IsWf (root (add w t)) × IsWf (root (del w t))
unfolding add del
add-del-IsWf [] t h = (h, h)
add-del-IsWf (c ∷ w) (trie (node cs e) check p s) h = (
  add_chars-IsWf (c ∷ w) (node cs e) h,
  elim (Bool-cases (prefix_found (c ∷ w) (node cs e))) [
    | inl q ↦ rw (cycle_del_lem c w (node cs e), q) (delete-AreWf c cs h)
    | inr q ↦ rw (cycle_del_lem c w (node cs e), q) h
  ],
)
