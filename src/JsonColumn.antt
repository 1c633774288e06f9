-- ===== src/JsonColumn.antt =====
-- types/type_JSON.go: a column of JSON in a table. A nil slice and nil itself are `none`.
pub mod Laws
use j7f.Base.{
  ℕ, Bool, true, false, List, [], ◌∷◌, ◌++◌, Option, none, some, Text, same_text, codes,
  if◌then◌else◌,
}

abbrev pub Json : Type 0
Json = Option Text

abbrev pub content : Json → Text
content none = []
content (some j) = j

-- What a driver hands to `Scan`.
pub data Column : Type 0 where
  null : Column
  bytes : Text → Column
  other : Column

is_null : Json → Bool
is_null j = same_text (content j) (codes "null")

-- `Value`.
pub value : Json → Option Text
unfolding is_null
value j = if is_null j then none else some (content j)

-- `append`, which leaves nil for nothing behind nil.
pub append_bytes : Json → Text → Json
append_bytes none [] = none
append_bytes none (c ∷ data_) = some (c ∷ data_)
append_bytes (some j) data_ = some (j ++ data_)

-- `Scan`, which drops the error that it makes; its own is always nil.
pub scan : Json → Column → Json
unfolding append_bytes
scan j null = none
scan j (bytes s) = append_bytes j s
scan j other = append_bytes j []

pub marshal_json : Json → Text
marshal_json none = codes "null"
marshal_json (some m) = m

-- `UnmarshalJSON`; the receiver may be nil, which is an error.
pub unmarshal_json : Option Json → Text → Option Json
unfolding append_bytes
unmarshal_json none data_ = none
unmarshal_json (some m) data_ = some (append_bytes m data_)

pub equals : Json → Json → Bool
equals j j1 = same_text (content j) (content j1)
