-- ===== src/Trie/Query/Tests.antt =====
-- `Query` on small inputs.
use j7f.Base.{
  ℕ, suc, ◌≡◌, ◌≤◌, refl, true, false, All, [], ◌∷◌, some, codes, take, replicate, arith,
}
use j7f.Trie.{Trie, trie, ptr, new_trie, root, add, load, store, contains}
use j7f.Trie.Query.{Answer, query, match_at, in_white_list, asterisks, star}
use j7f.Trie.Query.Correct.{IsAnswer, checks, query-IsAnswer}
use j7f.Trie.Query.Total.{IsGuarded, query_total}
use j7f.Trie.Query.Words.{IsLongWord, query-found, query_masks_word}

abbrev words : Trie
words = add (codes "abcd") (add (codes "ab") new_trie)

abbrev censored : Answer
censored = record {
  exist = true;
  found = codes "ab" ∷ codes "abcd" ∷ codes "ab" ∷ [];
  text = codes "x**y****z**";
}

query-words : query words (codes "xabyabcdzab") ≡ some censored
unfolding query add match_at load store in_white_list asterisks
query-words = refl

-- The text ends within the longer word: the shorter one is missed.
abbrev missed : Answer
missed = record { exist = false; found = []; text = codes "abc" }

query_tail : query words (codes "abc") ≡ some missed
unfolding query add match_at load store in_white_list asterisks
query_tail = refl

abbrev masked : Answer
masked = record { exist = true; found = codes "ab" ∷ []; text = codes "**x" }

query_start : query words (codes "abx") ≡ some masked
unfolding query add match_at load store in_white_list asterisks
query_start = refl

query-IsAnswer_example : IsAnswer (root words) (checks words) (codes "xabyabcdzab") censored
query-IsAnswer_example = query-IsAnswer words (codes "xabyabcdzab") censored query-words

-- A trie with itself as its white lists, once.
abbrev guarded : Trie
guarded = trie (root words) true (ptr words) (ptr words)

words-IsGuarded : IsGuarded words
unfolding add
words-IsGuarded = λ e. cc

query_total_example : (r : Answer) × (query guarded (codes "xabcdab") ≡ some r)
query_total_example =
    query_total guarded (codes "xabcdab") (λ e. (words-IsGuarded, words-IsGuarded))

query-found_example : All (IsLongWord (root words)) censored.found
query-found_example = query-found words (codes "xabyabcdzab") censored query-words

query_masks_word_example : (e : ℕ) × (1 ≤ e) × (take (suc e) masked.text ≡ replicate (suc e) star)
unfolding add contains load store
query_masks_word_example =
    query_masks_word 97 (codes "bx") words 1 masked refl (omega arith) (omega arith) refl refl
      query_start
