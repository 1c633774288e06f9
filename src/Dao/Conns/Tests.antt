-- ===== src/Dao/Conns/Tests.antt =====
-- A node with three slaves, and the names of its tables.
use j7f.Base.{ℕ, ◌<◌, ◌≡◌, refl, ap, List, [], ◌∷◌, ◌++◌, map, none, some, inl, Text, codes, arith}
use j7f.Base.Int.{ℤ, pos}
use j7f.Strconv.{itoa}
use j7f.Shard.{int}
use j7f.Shard.Dates.{Date}
use j7f.Shard.Configs.{ShardConfig, Shard, mod_shard}
use j7f.Shard.Configs.Tests.{mod_config, hash_config, parse_mod, parse_hash, parse_none}
use j7f.Shard.Modulo.{mod_hash_int}
use j7f.Dao.{Node, NodeConfig, DbConfig, returned}
use j7f.Dao.Balancer.Tests.{below_sum}
use j7f.Dao.Balancer.Weighted.{IsWeighted}
use j7f.Dao.Conns.{Driver, dsn_text, new_node, open_db, get_table}
use j7f.Dao.Conns.Laws.{IsParsed, get_table_mod}
use j7f.Dao.Conns.Opened.{IsUp, conns, new_node-IsWeighted}

-- A connection is its name.
abbrev a_driver : Driver Text
a_driver = record { connect = λ s. inl s; ping = λ s. none }

abbrev a_server : Text → ℕ → NodeConfig
a_server addr weight = record {
  addr = addr;
  user = codes "u";
  password = codes "p";
  timezone = codes "Local";
  weight = weight;
}

abbrev a_config : List NodeConfig → List ShardConfig → DbConfig
a_config slave shard = record { master = a_server (codes "m") 0; slave = slave; shard = shard }

abbrev a_slave : ℕ → NodeConfig
a_slave weight = a_server (codes "s") weight

abbrev three_slaves : List NodeConfig
three_slaves = a_slave 2 ∷ a_slave 4 ∷ a_slave 6 ∷ []

abbrev a_node : List ShardConfig → List Shard → Node Text
a_node cfgs shards = record {
  cfg = a_config [] cfgs;
  master = some (codes "m");
  slave = [];
  last_slave_index = 0;
  round_robin_q = [];
  slave_weights = [];
  shard = shards;
  shard_db = map (λ v. v.db) cfgs;
}

abbrev a_date : ℤ → Date
a_date t = record { year = pos 2021; month = 3; day = 5 }

parsed : IsParsed (a_node (mod_config ∷ []) (mod_shard (pos 4) ∷ []))
parsed = record { shards = parse_mod; names = refl }

get_table_mod_example :
    (k : ℕ) × (k < 4)
    × (get_table a_date
          (a_node (mod_config ∷ []) (mod_shard (pos 4) ∷ []))
          (codes "shop")
          (codes "orders")
          (int (pos 10) ∷ [])
        ≡ returned (codes "shop" ++ codes "." ++ codes "orders" ++ codes "_" ++ itoa (pos k)))
get_table_mod_example =
    get_table_mod a_date (a_node (mod_config ∷ []) (mod_shard (pos 4) ∷ [])) (codes "shop")
      (codes "orders") (int (pos 10) ∷ []) mod_config 4 parsed (refl, tt) refl refl refl
      (omega arith) (omega arith) (ap (λ r. r.1) (mod_hash_int (pos 10)))

unparsed : IsParsed (a_node (hash_config ∷ []) [])
unparsed = record { shards = parse_hash; names = refl }

up : (s : NodeConfig) → IsUp a_driver s
unfolding open_db
up s = (dsn_text s, refl)

new_node-IsWeighted_example :
    (n : Node Text) × (g : ℕ) × (order : List ℕ) × (new_node a_driver
        (λ i. 0)
        (a_config three_slaves [])
      ≡ returned n)
    × (n.slave ≡ conns a_driver three_slaves)
    × (n.slave_weights ≡ 2 ∷ 4 ∷ 6 ∷ [])
    × IsWeighted n g order
new_node-IsWeighted_example =
    new_node-IsWeighted a_driver (λ i. 0) (a_config three_slaves []) [] 2 (4 ∷ 6 ∷ []) (omega arith)
      parse_none (up (a_server (codes "m") 0))
      (up (a_slave 2), (up (a_slave 4), (up (a_slave 6), tt))) refl
      (omega arith, (omega arith, (omega arith, tt))) below_sum
