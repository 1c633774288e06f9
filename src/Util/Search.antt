-- ===== src/Util/Search.antt =====
-- `Contains` returns the first index, and `ArrayColumnStrings` the values that are there.
use j7f.Base.{
  ℕ, suc, ◌+◌, ◌≡◌, refl, sym, ◌∙◌, inl, inr, true, false, List, [], ◌∷◌, ◌++◌, append_assoc,
  append-nil, none, some, Text, same_text, arith, get_elem?, take, All, Bool-cases, Option-cases,
}
use j7f.Base.Int.{ℤ, pos, negsuc}
use j7f.Util.{contains_from, contains, lookup, column_rounds, array_column_strings}

-- What a search returns: the first index of the text, or -1.
pub data IsFound (slice : List Text) (s : Text) : ℤ → Type 0 where
  absent : All (λ x. same_text x s ≡ false) slice → IsFound slice s (negsuc 0)
  first :
      (k : ℕ) (x : Text)
      → get_elem? slice k ≡ some x
      → same_text x s ≡ true
      → All (λ y. same_text y s ≡ false) (take k slice)
      → IsFound slice s (pos k)

data FoundFrom (i : ℕ) (slice : List Text) (s : Text) : ℤ → Type 0 where
  absent_from : All (λ x. same_text x s ≡ false) slice → FoundFrom i slice s (negsuc 0)
  first_from :
      (k j : ℕ) (x : Text)
      → j ≡ i + k
      → get_elem? slice k ≡ some x
      → same_text x s ≡ true
      → All (λ y. same_text y s ≡ false) (take k slice)
      → FoundFrom i slice s (pos j)

found_later :
    (i : ℕ) (v : Text) (slice : List Text) (s : Text) (r : ℤ)
    → same_text v s ≡ false
    → FoundFrom (i + 1) slice s r
    → FoundFrom i (v ∷ slice) s r
found_later i v slice s _ h (absent_from all) = absent_from (h, all)
found_later i v slice s _ h (first_from k j x p e q all) =
    first_from (suc k) j x (omega arith) e q (h, all)

contains_from-FoundFrom :
    (i : ℕ) (slice : List Text) (s : Text) → FoundFrom i slice s (contains_from i slice s)
unfolding contains_from
contains_from-FoundFrom i [] s = absent_from tt
contains_from-FoundFrom i (v ∷ slice) s = elim (Bool-cases (same_text v s)) [
  | inl e ↦ rw e (first_from 0 i v (omega arith) refl e tt)
  | inr e ↦ rw e (
      found_later i v slice s (contains_from (i + 1) slice s) e
        (contains_from-FoundFrom (i + 1) slice s))
]

search_at_start : (slice : List Text) (s : Text) (r : ℤ) → FoundFrom 0 slice s r → IsFound slice s r
search_at_start slice s _ (absent_from all) = absent all
search_at_start slice s _ (first_from k j x p e q all) =
    let z : k ≡ j = omega arith in rw z at (first k x e q all)

-- `Contains` returns the first index of a text in a slice, and -1 if it is not there.
pub contains-IsFound : (slice : List Text) (s : Text) → IsFound slice s (contains slice s)
unfolding contains
contains-IsFound slice s =
    search_at_start slice s (contains_from 0 slice s) (contains_from-FoundFrom 0 slice s)

-- The values of a key, where it is there.
abbrev pub values : List (List (Text × Text)) → Text → List Text
values [] key = []
values (m ∷ ms) key = elim (lookup key m) [ none ↦ values ms key | some x ↦ x ∷ values ms key ]

column_rounds_lem :
    (columns : List Text) (input : List (List (Text × Text))) (key : Text)
    → column_rounds columns input key ≡ columns ++ values input key
unfolding column_rounds
column_rounds_lem columns [] key = sym (append-nil columns)
column_rounds_lem columns (m ∷ input) key = elim (Option-cases (lookup key m)) [
  | inl e ↦ rw (e, values) (column_rounds_lem columns input key)
  | inr (x, e) ↦
      rw (e, values)
        (column_rounds_lem (columns ++ x ∷ []) input key
          ∙ append_assoc columns (x ∷ []) (values input key))
]

array_column_lem :
    (input : List (List (Text × Text))) (key : Text)
    → array_column_strings input key ≡ values input key
unfolding array_column_strings
array_column_lem input key = column_rounds_lem [] input key
