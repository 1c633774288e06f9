-- ===== src/Shard/Configs.antt =====
-- components/dao/shard/shard.go: the interface `Shard`, the configuration and `ParseShard`.
pub mod Laws
pub mod Tests
use j7f.Base.{
  ℕ, suc, Bool, true, false, List, [], ◌∷◌, ◌++◌, Option, none, some, Text, same_text, codes,
  if◌then◌else◌,
}
use j7f.Base.Int.{ℤ}
use j7f.Shard.{Value, Reply, NumKeyRange, mod_find, range_find, parse_num_sharding, ◌>>=◌}
use j7f.Shard.Dates.{Date, day_find, month_find, year_find}

pub record ShardConfig : Type 0 where
  pub db : Text
  pub table : Text
  pub mod_num : ℤ
  pub locations : ℤ
  pub type : Text
  pub table_row_limit : ℤ

-- A `Shard` is one of the types that implement the interface.
pub data Shard : Type 0 where
  mod_shard : ℤ → Shard
  num_range_shard : List NumKeyRange → Shard
  date_day_shard date_month_shard date_year_shard : Shard

-- The call of `FindForKey` through the interface.
pub find_for_key : (ℤ → Date) → Shard → List Value → Option (Reply ℤ)
find_for_key local (mod_shard n) key = mod_find n key
find_for_key local (num_range_shard rs) key = range_find rs key
find_for_key local date_day_shard key = day_find local key
find_for_key local date_month_shard key = month_find local key
find_for_key local date_year_shard key = year_find local key

abbrev pub mod_type : Text
mod_type = codes "mod"

abbrev pub range_type : Text
range_type = codes "range"

abbrev pub date_day_type : Text
date_day_type = codes "date_day"

abbrev pub date_month_type : Text
date_month_type = codes "date_month"

abbrev pub date_year_type : Text
date_year_type = codes "date_year"

abbrev ranges_shard : Option (List NumKeyRange) → Option (List Shard)
ranges_shard none = none
ranges_shard (some rs) = some (num_range_shard rs ∷ [])

-- One round of `ParseShard`: what it appends to `shards`. A type that no case names appends nothing.
pub parse_config : ShardConfig → Option (List Shard)
parse_config cfg =
    if same_text cfg.type mod_type
    then some (mod_shard cfg.mod_num ∷ [])
    else if same_text cfg.type range_type
    then ranges_shard (parse_num_sharding cfg.locations cfg.table_row_limit)
    else if same_text cfg.type date_day_type
    then some (date_day_shard ∷ [])
    else if same_text cfg.type date_month_type
    then some (date_month_shard ∷ [])
    else if same_text cfg.type date_year_type
    then some (date_year_shard ∷ [])
    else some []

pub parse_rounds : List Shard → List ShardConfig → Option (List Shard)
parse_rounds shards [] = some shards
parse_rounds shards (cfg ∷ cfgs) = do new ← parse_config cfg; parse_rounds (shards ++ new) cfgs

-- `ParseShard`; its error is always nil.
pub parse_shard : List ShardConfig → Option (List Shard)
unfolding parse_rounds
parse_shard cfgs = parse_rounds [] cfgs
