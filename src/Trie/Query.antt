-- ===== src/Trie/Query.antt =====
-- components/trie/trie.go: `Query` and the white lists. Indices are those of the source; a panic is
-- `none`. `chars` is the slice that the source overwrites in place.
pub mod Walk
pub mod Censor
pub mod Correct
pub mod Total
pub mod Words
pub mod Tests
use Prim.Native.Nat.{min}
use j7f.Base.{
  Text, ℕ, zero, suc, ◌+◌, ◌-◌, Bool, true, false, not, ◌&&◌, List, [], ◌∷◌, ◌++◌, Option, none,
  some, ltb, ◌==◌, if◌then◌else◌, length, get_elem?, set, take, drop,
}
use mathlib.Core.Option
use j7f.Trie.{Node, Trie, trie, TriePtr, nil, ptr, load, children, is_end}

infixl 5 ◌>>=◌
abbrev ◌>>=◌ {ℓ κ} : {A : Type ℓ} {B : Type κ} → Option A → (A → Option B) → Option B
none >>= f = none
some a >>= f = f a

-- The three results of `Query`.
pub record Answer : Type 0 where
  pub exist : Bool
  pub found : List Text
  pub text : Text

-- The rune of `*`.
abbrev pub star : ℕ
star = 42

abbrev pub is_nil {ℓ} : {A : Type ℓ} → List A → Bool
is_nil [] = true
is_nil (x ∷ xs) = false

-- `chars[i:j]`.
abbrev pub slice : Text → ℕ → ℕ → Text
slice chars i j = take (j - i) (drop i chars)

-- The inner loop from `j` on; the last argument is `chars[j:]`. The result is the last index of the
-- match at which the loop breaks, if it breaks at a match. Falling off the end is no match, even
-- where `jj` is set.
pub walk : Node → ℕ → ℕ → Text → Option ℕ
walk n j jj [] = none
walk n j jj (c ∷ rest) = elim (load c (children n)) [
  | none ↦ if ltb 0 jj then some jj else none
  | some m ↦
      let more = walk m (j + 1) (if is_end m then j else jj) rest in
      if is_end m && is_nil rest then some j else more
]

-- The round of the outer loop at `i`: the match that starts there, `chars[i:]` given.
pub match_at : Node → ℕ → Text → Option ℕ
unfolding walk
match_at n i [] = none
match_at n i (c ∷ rest) = elim (load c (children n)) [
  | none ↦ none
  | some m ↦ walk m (i + 1) 0 rest
]

-- `replaceToAsterisk`: so many writes from `k` on.
pub asterisks : ℕ → ℕ → Text → Text
asterisks zero k chars = chars
asterisks (suc n) k chars = asterisks n (k + 1) (set chars k star)

last_is_star : Text → Option Bool
last_is_star t = do c ← get_elem? t (length t - 1); some (c == star)

first_is_star : Text → Option Bool
first_is_star t = do c ← get_elem? t 0; some (c == star)

-- `isInWhitePreffixList`: the white list's `Query` is the first argument.
pub in_white_prefix : (Text → Option Answer) → Text → ℕ → Option Bool
unfolding last_is_star
in_white_prefix query chars i = if i == 0 then some false else (do
  r ← query (slice chars (i - 4) (i + 1))
  if r.exist then last_is_star r.text else some false)

-- `isInWhiteSuffixList`.
pub in_white_suffix : (Text → Option Answer) → Text → ℕ → Option Bool
unfolding first_is_star
in_white_suffix query chars j = if j + 1 == length chars then some false else (do
  r ← query (slice chars j (min (j + 5) (length chars)))
  if r.exist then first_is_star r.text else some false)

-- The test of both branches, `CheckWhiteList && isInWhiteList`.
pub in_white_list :
    Bool → (Text → Option Answer) → (Text → Option Answer) → Text → ℕ → ℕ → Option Bool
unfolding in_white_prefix in_white_suffix
in_white_list check prefix suffix chars i j =
    if check
    then (do
      b ← in_white_prefix prefix chars i
      if b then some true else in_white_suffix suffix chars j)
    else some false

-- The outer loop, a round of fuel for each step of `i`.
module _ (n : Node) (check : Bool) (prefix suffix : Text → Option Answer) where
  pub scan : ℕ → ℕ → Text → List Text → Option (List Text × Text)
  scan zero i chars found = some (found, chars)
  scan (suc fuel) i chars found = elim (ltb i (length chars)) [
    | false ↦ some (found, chars)
    | true ↦ elim (match_at n i (drop i chars)) [
      | none ↦ scan fuel (i + 1) chars found
      | some j ↦ elim (in_white_list check prefix suffix chars i j) [
        | none ↦ none
        | some true ↦ scan fuel (j + 1) chars found
        | some false ↦
            scan fuel (j + 1) (asterisks (j + 1 - i) i chars) (found ++ slice chars i (j + 1) ∷ [])
      ]
    ]
  ]

pub finish : List Text × Text → Answer
finish (found, chars) = record { exist = not (is_nil found); found = found; text = chars }

-- `Query`, which a nil `*Trie` survives only on the empty text.
mutual
  unfolding scan finish

  pub query : Trie → Text → Option Answer
  query (trie n check p s) [] = some (record { exist = false; found = []; text = [] })
  query (trie n check p s) (c ∷ text) =
      Option.map finish
        (scan n check (query_ptr p) (query_ptr s) (length (c ∷ text)) 0 (c ∷ text) [])

  pub query_ptr : TriePtr → Text → Option Answer
  query_ptr nil [] = some (record { exist = false; found = []; text = [] })
  query_ptr nil (c ∷ text) = none
  query_ptr (ptr t) text = query t text
