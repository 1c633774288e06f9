-- ===== src/Trie/Removal.antt =====
-- What `Del` does to the set of words.
use j7f.Base.{
  Text, ℕ, ◌≡◌, refl, Option-cases, inl, inr, Bool, true, false, not, ◌&&◌, ◌||◌, [], ◌∷◌, none,
  some, arith, ◌==◌, if◌then◌else◌,
}
use j7f.Trie.{
  Node, node, Trie, trie, load, delete, root, is_end, children, cycle_del, del, contains,
}
use j7f.Trie.Maps.{load-delete, store-load}

-- Some beginning of the text, not empty, is a word of the tree.
pub prefix_found : Text → Node → Bool
prefix_found [] n = false
prefix_found (c ∷ w) (node cs e) = elim (load c cs) [
  | none ↦ false
  | some n ↦ is_end n || prefix_found w n
]

-- `cycleDel` says whether some beginning of the keyword is a word, and if so the child for the first
-- rune is gone, with all below it. If not, nothing changed.
pub cycle_del_lem :
    (c : ℕ) (w : Text) (n : Node)
    → cycle_del (c ∷ w) n ≡ (
        if prefix_found (c ∷ w) n
        then (node (delete c (children n)) (is_end n), true)
        else (n, false))
unfolding cycle_del prefix_found
cycle_del_lem c [] (node cs e) = ground arith
cycle_del_lem c (d ∷ w) (node cs e) = elim (Option-cases (load c cs)) [
  | inl h ↦ ground arith
  | inr (m, h) ↦ ground (arith, cycle_del_lem d w m, store-load c m cs h)
]

abbrev pub starts_with_rune : ℕ → Text → Bool
starts_with_rune c [] = false
starts_with_rune c (d ∷ v) = c == d

contains-delete :
    (c : ℕ) (v : Text) (n : Node)
    → contains v (node (delete c (children n)) (is_end n))
      ≡ (not (starts_with_rune c v) && contains v n)
unfolding contains
contains-delete c [] (node cs e) = refl
contains-delete c (d ∷ v) (node cs e) = ground (arith, load-delete c d cs)

-- `Del` of a keyword, not empty, that has a word of the trie as a beginning removes every word
-- with the same first rune, and no other word. For a keyword with no such beginning the words
-- stay.
pub contains-del :
    (c : ℕ) (w v : Text) (t : Trie)
    → contains v (root (del (c ∷ w) t)) ≡ (
        if prefix_found (c ∷ w) (root t)
        then not (starts_with_rune c v) && contains v (root t)
        else contains v (root t))
unfolding del
contains-del c w v (trie n check p s) = ground (arith, cycle_del_lem c w n, contains-delete c v n)

contains→prefix_found :
    (c : ℕ) (w : Text) (n : Node) → contains (c ∷ w) n ≡ true → prefix_found (c ∷ w) n ≡ true
unfolding contains prefix_found
contains→prefix_found c [] (node cs e) h = elim (Option-cases (load c cs)) [
  | inl q ↦ ground arith
  | inr (node ds f, q) ↦ ground arith
]
contains→prefix_found c (d ∷ w) (node cs e) h = elim (Option-cases (load c cs)) [
  | inl q ↦ ground arith
  | inr (m, q) ↦ ground (arith, contains→prefix_found d w m)
]

-- If a trie holds two words with the same first rune, `Del` of the one removes the other too.
del_removes_sibling :
    (c : ℕ) (v w : Text) (t : Trie)
    → contains (c ∷ w) (root t) ≡ true
    → contains (c ∷ v) (root t) ≡ true
    → contains (c ∷ v) (root (del (c ∷ w) t)) ≡ false
del_removes_sibling c v w t hw hv =
    ground (arith, contains-del c w (c ∷ v) t, contains→prefix_found c w (root t) hw)
