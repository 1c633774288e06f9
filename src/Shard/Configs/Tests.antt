-- ===== src/Shard/Configs/Tests.antt =====
-- Configurations of shards, and what `ParseShard` makes of them.
use j7f.Base.{◌≡◌, refl, [], ◌∷◌, some, codes}
use j7f.Base.Int.{pos}
use j7f.Shard.Configs.{ShardConfig, mod_shard, parse_shard, parse_rounds, parse_config}

abbrev pub mod_config : ShardConfig
mod_config = record {
  db = codes "shop";
  table = codes "orders";
  mod_num = pos 4;
  locations = pos 0;
  type = codes "mod";
  table_row_limit = pos 0;
}

-- A type that `ParseShard` has no case for.
abbrev pub hash_config : ShardConfig
hash_config = record mod_config { type = codes "hash" }

pub parse_mod : parse_shard (mod_config ∷ []) ≡ some (mod_shard (pos 4) ∷ [])
unfolding parse_shard parse_rounds parse_config
parse_mod = refl

pub parse_hash : parse_shard (hash_config ∷ []) ≡ some []
unfolding parse_shard parse_rounds parse_config
parse_hash = refl

pub parse_none : parse_shard [] ≡ some []
unfolding parse_shard parse_rounds
parse_none = refl
