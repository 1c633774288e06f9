-- ===== src/Trie/Words.antt =====
-- What `Add` does to the set of words.
use j7f.Base.{Text, same_text, ℕ, ◌≡◌, refl, false, ◌||◌, [], ◌∷◌, arith}
use j7f.Trie.{Node, node, Trie, trie, load, root, add_chars, add, contains, new_node, load_or_new}
use j7f.Trie.Maps.{load-store}

contains-new_node : (v : Text) → contains v new_node ≡ false
unfolding contains load
contains-new_node [] = refl
contains-new_node (c ∷ v) = refl

contains-add_chars :
    (w v : Text) (n : Node) → contains v (add_chars w n) ≡ (same_text w v || contains v n)
unfolding contains add_chars
contains-add_chars [] [] (node cs e) = refl
contains-add_chars [] (d ∷ v) (node cs e) = refl
contains-add_chars (c ∷ w) [] (node cs e) = refl
contains-add_chars (c ∷ w) (d ∷ v) (node cs e) =
    let m = load_or_new c cs in
    ground (arith, load-store c d (add_chars w m) cs, contains-add_chars w v m, contains-new_node v)

-- After `Add` of a word that is not empty the trie holds that word and what it held before, and
-- no other.
pub contains-add :
    (c : ℕ) (w v : Text) (t : Trie)
    → contains v (root (add (c ∷ w) t)) ≡ (same_text (c ∷ w) v || contains v (root t))
unfolding add
contains-add c w v (trie n check p s) = contains-add_chars (c ∷ w) v n
