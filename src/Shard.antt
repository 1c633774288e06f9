-- ===== src/Shard.antt =====
-- components/dao/shard/shard.go and numkey.go: which shard a key belongs to. A panic is `none`; Go's
-- pair of a value and an error is a pair, and a nil error is `none` in it.
pub mod Modulo
pub mod Range
pub mod Dates
pub mod Configs
pub mod Tests
use j7f.Base.{
  ℕ, zero, suc, ◌+◌, ◌-◌, ◌%◌, ◌^◌, Bool, true, false, ◌&&◌, ◌||◌, List, [], ◌∷◌, ◌++◌, Option,
  none, some, Text, same_text, codes, ltb, leb, ◌==◌, if◌then◌else◌, length, take, drop,
}
use j7f.Base.Int.{ℤ, pos, negsuc, to_u64, to_i64, wrap_i64, ltb_ℤ, leb_ℤ, eqb_ℤ, ◌*ℤ◌, max_i64}
use j7f.Strconv.{itoa, format_uint, parse_uint, parse_int, atoi}
use j7f.Crc.{checksum_ieee}

infixl 5 ◌>>=◌
abbrev pub ◌>>=◌ {ℓ κ} : {A : Type ℓ} {B : Type κ} → Option A → (A → Option B) → Option B
none >>= f = none
some a >>= f = f a

-- The dynamic type of a key with its value; of an `[]interface{}` the code reads the length only.
pub data Value : Type 0 where
  int : ℤ → Value
  uint64 : ℕ → Value
  int64 : ℤ → Value
  string : Text → Value
  bytes : Text → Value
  slice : ℕ → Value
  other : Value

-- `invalid_date` is the code's own `Errorf`, `bad_number` an error of `Atoi` passed on.
pub data ShardError : Type 0 where
  key_not_exist key_out_of_range multi_shard invalid_date bad_number : ShardError

abbrev pub Reply : Type 0 → Type 0
Reply A = A × Option ShardError

-- `ModValue`.
mod_value : Value → Reply ℕ
mod_value (int v) = (to_u64 v, none)
mod_value (uint64 v) = (v, none)
mod_value (int64 v) = (to_u64 v, none)
mod_value (string s) = elim (parse_uint s) [ none ↦ (checksum_ieee s, none) | some v ↦ (v, none) ]
mod_value (bytes s) = (checksum_ieee s, none)
mod_value (slice n) = if n == 0 then (0, some key_not_exist) else (0, some key_not_exist)
mod_value other = (0, some key_not_exist)

abbrev parsed : Option ℤ → Option (Reply ℤ)
parsed none = none
parsed (some v) = some (v, none)

-- `NumValue`, which panics on a text that is no number.
num_value : Value → Option (Reply ℤ)
num_value (int v) = some (v, none)
num_value (uint64 v) = some (to_i64 v, none)
num_value (int64 v) = some (v, none)
num_value (string s) = parsed (parse_int s)
num_value (bytes s) = parsed (parse_int s)
num_value (slice n) =
    if n == 0 then some (pos 0, some key_not_exist) else some (pos 0, some key_not_exist)
num_value other = some (pos 0, some key_not_exist)

-- The loops that join several keys into one text, from the text so far.
mod_keys : Text → List Value → Text
mod_keys keys [] = keys
mod_keys keys (v ∷ vs) =
    let (r, err) = mod_value v in
    mod_keys (elim err [ some e ↦ keys | none ↦ keys ++ itoa (to_i64 r) ]) vs

num_keys : Text → List Value → Option Text
num_keys keys [] = some keys
num_keys keys (v ∷ vs) = do
  (r, err) ← num_value v
  num_keys (elim err [ some e ↦ keys | none ↦ keys ++ itoa r ]) vs

pub mod_hash : List Value → Reply ℕ
unfolding mod_value mod_keys
mod_hash (k ∷ []) = mod_value k
mod_hash ks = mod_value (string (mod_keys [] ks))

-- `ModShard.FindForKey`; the remainder by zero panics.
pub mod_find : ℤ → List Value → Option (Reply ℤ)
mod_find shard_num key =
    let (m, err) = mod_hash key in
    if to_u64 shard_num == 0 then none else some (to_i64 (m % to_u64 shard_num), err)

pub record NumKeyRange : Type 0 where
  pub start : ℤ
  pub stop : ℤ

pub contains : NumKeyRange → ℤ → Bool
contains kr i = leb_ℤ kr.start i && (eqb_ℤ kr.stop max_i64 || ltb_ℤ i kr.stop)

-- The loop of `ParseNumSharding` from `i` on, for so many more ranges.
pub num_ranges : ℤ → ℕ → ℕ → List NumKeyRange
num_ranges row_limit i zero = []
num_ranges row_limit i (suc n) =
    record { start = wrap_i64 (pos i *ℤ row_limit); stop = wrap_i64 (pos (i + 1) *ℤ row_limit) }
    ∷ num_ranges row_limit (i + 1) n

-- `ParseNumSharding`: `make` of a negative length panics. The error is always nil.
pub parse_num_sharding : ℤ → ℤ → Option (List NumKeyRange)
unfolding num_ranges
parse_num_sharding (pos n) row_limit = some (num_ranges row_limit 0 n)
parse_num_sharding (negsuc n) row_limit = none

pub num_key : List Value → Option (Reply ℤ)
unfolding num_value num_keys
num_key (k ∷ []) = num_value k
num_key ks = do keys ← num_keys [] ks; num_value (string keys)

-- The loop over the ranges, from the index `i` on.
pub find_range : ℕ → List NumKeyRange → ℤ → Reply ℤ
find_range i [] v = (negsuc 0, some key_out_of_range)
find_range i (r ∷ rs) v = if contains r v then (pos i, none) else find_range (i + 1) rs v

abbrev range_reply : List NumKeyRange → Reply ℤ → Reply ℤ
range_reply rs (v, some e) = (pos 0, some e)
range_reply rs (v, none) = find_range 0 rs v

-- `NumRangeShard.FindForKey`.
pub range_find : List NumKeyRange → List Value → Option (Reply ℤ)
range_find [] key = some (negsuc 0, some multi_shard)
range_find (r ∷ rs) key = do reply ← num_key key; some (range_reply (r ∷ rs) reply)

-- `EqualStart` and `EqualStop`; an index out of range panics, and so does `NumValue`.
abbrev pub at {ℓ} : {A : Type ℓ} → List A → ℕ → Option A
at [] i = none
at (x ∷ xs) zero = some x
at (x ∷ xs) (suc i) = at xs i

equal_start : List NumKeyRange → Value → ℕ → Option (Reply Bool)
unfolding num_value
equal_start shards key index = do
  (v, err) ← num_value key
  elim err [
    | some e ↦ some (false, some e)
    | none ↦ (do r ← at shards index; some (eqb_ℤ r.start v, none))
  ]

equal_stop : List NumKeyRange → Value → ℕ → Option (Reply Bool)
unfolding num_value
equal_stop shards key index = do
  (v, err) ← num_value key
  elim err [
    | some e ↦ some (false, none)
    | none ↦ (do r ← at shards index; some (eqb_ℤ r.stop v, none))
  ]
