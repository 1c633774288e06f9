-- ===== src/Trie/Query/Total.antt =====
-- When `Query` does not panic: the white lists that it consults are there.
use Prim.Native.Nat.{min}
use j7f.Base.{
  Text, ℕ, zero, suc, ◌+◌, ◌-◌, ◌<◌, ◌≤◌, ◌≡◌, refl, ◌∙◌, inl, inr, Bool, true, false, List, [],
  ◌∷◌, ◌++◌, append-nil, Option, some, arith, ◌==◌, if◌then◌else◌, length, take, drop, replicate,
  get_elem?, length-append, length-replicate, length-take, length-drop, Option-cases, Bool-cases,
}
use j7f.Trie.{Node, Trie, trie, TriePtr, nil, ptr}
use j7f.Trie.Query.{
  Answer, star, slice, in_white_list, in_white_prefix, in_white_suffix, scan, finish, query,
  query_ptr,
}
use j7f.Trie.Query.Walk.{first_match}
use j7f.Trie.Query.Censor.{first_match_sound, matched_length, scan_keep, scan_pass, scan_mask}
use j7f.Trie.Query.Correct.{query-IsAnswer, Censored-length}

-- A trie that checks white lists has both, and they are such tries again.
abbrev mutual
  pub IsGuarded : Trie → Type 0
  IsGuarded (trie n check p s) = check ≡ true → IsGuardedPtr p × IsGuardedPtr s

  pub IsGuardedPtr : TriePtr → Type 0
  IsGuardedPtr nil = ⊥
  IsGuardedPtr (ptr t) = IsGuarded t

-- What a white list's `Query` is asked for: an answer as long as the question.
abbrev Answers : (Text → Option Answer) → Type 0
Answers query = (s : Text) → (r : Answer) × (query s ≡ some r) × (length r.text ≡ length s)

get_elem?-total : (t : Text) (i : ℕ) → i < length t → (c : ℕ) × (get_elem? t i ≡ some c)
get_elem?-total [] i h = absurd (omega arith)
get_elem?-total (c ∷ t) zero h = (c, refl)
get_elem?-total (c ∷ t) (suc i) h = get_elem?-total t i (omega arith)

length-slice : (t : Text) (i j : ℕ) → i ≤ j → j ≤ length t → length (slice t i j) ≡ j - i
length-slice t i j h k = omega (arith, length-take (j - i) (drop i t), length-drop i t)

module _ (query : Text → Option Answer) (answers : Answers query) (chars : Text) where
  in_white_prefix_total :
      (i : ℕ) → i < length chars → (b : Bool) × (in_white_prefix query chars i ≡ some b)
  unfolding in_white_prefix
  in_white_prefix_total i h =
      let s = slice chars (i - 4) (i + 1) in
      let (r, e, l) = answers s in
      let size = length-slice chars (i - 4) (i + 1) (omega arith) (omega arith) in
      let (c, g) = get_elem?-total r.text (length r.text - 1) (omega arith) in
      elim (Bool-cases (i == 0)) [
        | inl q ↦ (false, ground arith)
        | inr q ↦ elim (Bool-cases r.exist) [
          | inl x ↦ (c == star, ground arith)
          | inr x ↦ (false, ground arith)
        ]
      ]

  in_white_suffix_total :
      (j : ℕ) → j < length chars → (b : Bool) × (in_white_suffix query chars j ≡ some b)
  unfolding in_white_suffix
  in_white_suffix_total j h =
      let s = slice chars j (min (j + 5) (length chars)) in
      let (r, e, l) = answers s in
      let size = length-slice chars j (min (j + 5) (length chars)) (omega arith) (omega arith) in
      let (c, g) = get_elem?-total r.text 0 (omega arith) in
      elim (Bool-cases (j + 1 == length chars)) [
        | inl q ↦ (false, ground arith)
        | inr q ↦ elim (Bool-cases r.exist) [
          | inl x ↦ (c == star, ground arith)
          | inr x ↦ (false, ground arith)
        ]
      ]

abbrev Decides : Bool → (Text → Option Answer) → (Text → Option Answer) → Type 0
Decides check prefix suffix =
    (chars : Text) (i j : ℕ)
    → i < length chars
    → j < length chars
    → (b : Bool) × (in_white_list check prefix suffix chars i j ≡ some b)

unchecked : (prefix suffix : Text → Option Answer) → Decides false prefix suffix
unfolding in_white_list
unchecked prefix suffix chars i j h k = (false, refl)

checked :
    (prefix suffix : Text → Option Answer)
    → Answers prefix
    → Answers suffix
    → Decides true prefix suffix
unfolding in_white_list
checked prefix suffix p s chars i j h k =
    let (b, x) = in_white_prefix_total prefix p chars i h in
    let (d, y) = in_white_suffix_total suffix s chars j k in ((if b then true else d), ground arith)

-- The outer loop ends within a round for each rune.
module _ (n : Node) (check : Bool) (prefix suffix : Text → Option Answer)
    (decides : Decides check prefix suffix) where
  scan_total :
      (fuel i : ℕ) (pre s : Text) (found : List Text)
      → i ≡ length pre
      → length s ≤ fuel
      → (r : List Text × Text) × (scan n check prefix suffix fuel i (pre ++ s) found ≡ some r)
  unfolding scan
  scan_total zero i pre s found hi hs = ((found, pre ++ s), refl)
  scan_total (suc fuel) i pre [] found hi hs = ((found, pre), ground (arith, append-nil pre))
  scan_total (suc fuel) i pre (c ∷ s) found hi hs = elim (Option-cases (first_match n (c ∷ s))) [
    | inl e ↦
        let (r, x) =
          scan_total fuel (i + 1) (pre ++ c ∷ []) s found
            (omega (arith, length-append pre (c ∷ []))) (omega arith) in
        (r, scan_keep n check prefix suffix fuel i pre found hi c s e ∙ x)
    | inr (d, e) ↦
        let inside = (first_match_sound (c ∷ s) n d e).1 in
        let size = matched_length d (c ∷ s) inside in
        let rest = length-drop (suc d) (c ∷ s) in
        let whole = length-append pre (c ∷ s) in
        let (b, told) = decides (pre ++ c ∷ s) i (i + d) (omega arith) (omega arith) in
        elim (Option-cases (in_white_list check prefix suffix (pre ++ c ∷ s) i (i + d))) [
          | inl w ↦ cc
          | inr (true, w) ↦
              let (r, x) =
                scan_total fuel (i + d + 1) (pre ++ take (suc d) (c ∷ s)) (drop (suc d) (c ∷ s))
                  found (omega (arith, length-append pre (take (suc d) (c ∷ s)))) (omega arith) in
              (r, scan_pass n check prefix suffix fuel i pre found hi c s d e w ∙ x)
          | inr (false, w) ↦
              let stars = replicate (suc d) star in
              let (r, x) =
                scan_total fuel (i + d + 1) (pre ++ stars) (drop (suc d) (c ∷ s))
                  (found ++ take (suc d) (c ∷ s) ∷ [])
                  (omega (arith, length-append pre stars, length-replicate (suc d) star))
                  (omega arith) in
              (r, scan_mask n check prefix suffix fuel i pre found hi c s d e w ∙ x)
        ]
  ]

answer_length : (t : Trie) (s : Text) (r : Answer) → query t s ≡ some r → length r.text ≡ length s
answer_length t s r h = Censored-length (query-IsAnswer t s r h).censored

decides_of :
    (check : Bool) (p s : TriePtr)
    → (check ≡ true → Answers (query_ptr p) × Answers (query_ptr s))
    → Decides check (query_ptr p) (query_ptr s)
decides_of true p s h = let (x, y) = h refl in checked (query_ptr p) (query_ptr s) x y
decides_of false p s h = unchecked (query_ptr p) (query_ptr s)

mutual
  unfolding query

  answers : (t : Trie) → IsGuarded t → Answers (query t)
  answers (trie n check p w) h [] = (record { exist = false; found = []; text = [] }, refl, refl)
  answers (trie n check p w) h (c ∷ s) =
      let guards : check ≡ true → Answers (query_ptr p) × Answers (query_ptr w) =
        λ e. (Answers-ptr p (h e).0, Answers-ptr w (h e).1) in
      let (q, e) =
        scan_total n check (query_ptr p) (query_ptr w) (decides_of check p w guards)
          (length (c ∷ s)) 0 [] (c ∷ s) [] refl (omega arith) in
      let x : query (trie n check p w) (c ∷ s) ≡ some (finish q) = ground arith in
      (finish q, x, answer_length (trie n check p w) (c ∷ s) (finish q) x)

  Answers-ptr : (t : TriePtr) → IsGuardedPtr t → Answers (query_ptr t)
  Answers-ptr nil h s = absurd h
  Answers-ptr (ptr t) h s = answers t h s

-- `Query` returns, without a panic, for every text, if every trie that checks its white lists
-- has both of them, and they do likewise.
pub query_total : (t : Trie) (s : Text) → IsGuarded t → (r : Answer) × (query t s ≡ some r)
query_total t s h = let (r, e, l) = answers t h s in (r, e)
