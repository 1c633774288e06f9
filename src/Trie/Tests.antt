-- ===== src/Trie/Tests.antt =====
-- The trie on small inputs.
use j7f.Base.{◌≡◌, refl, [], ◌∷◌, codes, same_text, not, ◌&&◌, ◌||◌, if◌then◌else◌}
use j7f.Trie.{Trie, new_trie, root, add, del, read_all, contains, store, load}
use j7f.Trie.Words.{contains-add}
use j7f.Trie.Removal.{contains-del, prefix_found, starts_with_rune}
use j7f.Trie.Listing.{IsWf, add-del-IsWf}

abbrev two_words : Trie
two_words = add (codes "abcd") (add (codes "ax") new_trie)

read_two : read_all two_words ≡ codes "ax" ∷ codes "abcd" ∷ []
unfolding read_all add store load
read_two = refl

contains-add_example : contains (codes "ax") (root two_words) ≡ (
    same_text (codes "abcd") (codes "ax")
    || contains (codes "ax") (root (add (codes "ax") new_trie)))
contains-add_example = contains-add 97 (codes "bcd") (codes "ax") (add (codes "ax") new_trie)

contains-del_example : contains (codes "ax") (root (del (codes "abcd") two_words)) ≡ (
    if prefix_found (codes "abcd") (root two_words)
    then not (starts_with_rune 97 (codes "ax")) && contains (codes "ax") (root two_words)
    else contains (codes "ax") (root two_words))
contains-del_example = contains-del 97 (codes "bcd") (codes "ax") two_words

two_words-IsWf : IsWf (root two_words)
two_words-IsWf = (add-del-IsWf (codes "abcd") _ (add-del-IsWf (codes "ax") new_trie tt).0).0
