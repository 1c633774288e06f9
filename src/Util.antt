-- ===== src/Util.antt =====
-- util/funcs.go: the search in a list of texts, and a column of a list of maps.
pub mod Host
pub mod Search
pub mod Tests
use j7f.Base.{ℕ, ◌+◌, List, [], ◌∷◌, ◌++◌, Option, none, some, Text, same_text, if◌then◌else◌}
use j7f.Base.Int.{ℤ, pos, negsuc}

-- The loop of `Contains` from an index on.
pub contains_from : ℕ → List Text → Text → ℤ
contains_from index [] s = negsuc 0
contains_from index (value ∷ slice) s =
    let rest = contains_from (index + 1) slice s in if same_text value s then pos index else rest

unfoldable pub contains : List Text → Text → ℤ
unfolding contains_from
contains slice s = contains_from 0 slice s

-- A `map[string]string` is a list of its entries, no key twice.
pub lookup : Text → List (Text × Text) → Option Text
lookup key [] = none
lookup key ((k, value) ∷ entries) =
    let rest = lookup key entries in if same_text k key then some value else rest

-- `ArrayColumnStrings`.
pub column_rounds : List Text → List (List (Text × Text)) → Text → List Text
unfolding lookup
column_rounds columns [] key = columns
column_rounds columns (val ∷ input) key =
    column_rounds (elim (lookup key val) [ none ↦ columns | some x ↦ columns ++ x ∷ [] ]) input key

pub array_column_strings : List (List (Text × Text)) → Text → List Text
unfolding column_rounds
array_column_strings input key = column_rounds [] input key
