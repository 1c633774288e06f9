-- ===== src/Dao/Conns.antt =====
-- components/dao/node.go: the node, its connections and its tables.
pub mod Laws
pub mod Opened
pub mod Tests
use j7f.Base.{
  ◌≡◌, arith, ℕ, zero, suc, ◌+◌, ◌-◌, ◌/◌, ◌%◌, Bool, true, false, ◌&&◌, ◌||◌, List, [], ◌∷◌, ◌++◌,
  map, Option, none, some, Text, same_text, codes, ltb, leb, ◌==◌, if◌then◌else◌, length, get_elem?,
  ◌⊎◌, inl, inr,
}
use j7f.Base.Int.{ℤ}
use j7f.Strconv.{itoa, format_uint}
use j7f.Shard.{Value, Reply, ShardError}
use j7f.Shard.Dates.{Date}
use j7f.Shard.Configs.{ShardConfig, Shard, find_for_key, parse_shard}
use j7f.Dao.{
  Node, NodeConfig, DbConfig, DaoError, no_master_db, no_master_conn, no_slave_db, sharding, driver,
  Outcome, returned, failed, panicked, ◌>>=◌,
}
use j7f.Dao.Balancer.{init_balancer, get_next_slave}

-- `url.QueryEscape`, over bytes.
hex_digit : ℕ → ℕ
hex_digit d = if ltb d 10 then b'0' + d else b'A' + d - 10

is_plain_byte : ℕ → Bool
is_plain_byte c =
    leb b'a' c && leb c b'z'
    || leb b'A' c && leb c b'Z'
    || leb b'0' c && leb c b'9'
    || c == b'-'
    || c == b'_'
    || c == b'.'
    || c == b'~'

query_escape : Text → Text
unfolding hex_digit is_plain_byte
query_escape [] = []
query_escape (c ∷ s) =
    let rest = query_escape s in
    if is_plain_byte c
    then c ∷ rest
    else if c == b' '
    then b'+' ∷ rest
    else b'%' ∷ hex_digit (c / 16) ∷ hex_digit (c % 16) ∷ rest

-- The name of the data source that `openDB` opens.
pub dsn_text : NodeConfig → Text
unfolding query_escape
dsn_text dsn =
    dsn.user
    ++ codes ":"
    ++ dsn.password
    ++ codes "@tcp("
    ++ dsn.addr
    ++ codes ")/?charset=utf8&loc="
    ++ query_escape dsn.timezone
    ++ codes "&parseTime=true"

-- What `database/sql` offers: a connection or an error on opening, nil or an error on a ping.
pub record Driver (Db : Type 0) : Type 0 where
  pub connect : Text → Db ⊎ DaoError
  pub ping : Db → Option DaoError

-- `openDB`: the connection comes back with the error of its ping.
pub open_db : {Db : Type 0} → Driver Db → NodeConfig → Option Db × Option DaoError
open_db d dsn = elim (d.connect (dsn_text dsn)) [
  | inl db ↦ (some db, d.ping db)
  | inr e ↦ (none, some e)
]

pub parse_master : {Db : Type 0} → Driver Db → Node Db → Node Db × Option DaoError
parse_master d n = let (db, err) = open_db d n.cfg.master in (record n { master = db }, err)

-- The loop of `parseSlave`.
pub parse_slaves : {Db : Type 0} → Driver Db → List NodeConfig → Node Db → Node Db × Option DaoError
parse_slaves d [] n = (n, none)
parse_slaves d (slave ∷ slaves) n =
    let weighed = record n { slave_weights = n.slave_weights ++ slave.weight ∷ [] } in
    let (db, err) = open_db d slave in
    let rest = parse_slaves d slaves (record weighed { slave = n.slave ++ db ∷ [] }) in
    elim err [ some e ↦ (weighed, some e) | none ↦ rest ]

pub parse_slave : {Db : Type 0} → Driver Db → Node Db → Node Db × Option DaoError
parse_slave d n =
    if length n.cfg.slave == 0
    then (n, none)
    else parse_slaves d n.cfg.slave (record n { slave = []; slave_weights = [] })

checked : {Db : Type 0} → Node Db × Option DaoError → Outcome (Node Db)
checked (n, some e) = failed e
checked (n, none) = returned n

parsed_shards : Option (List Shard) → Outcome (List Shard)
parsed_shards none = panicked
parsed_shards (some shards) = returned shards

-- The node that `NewNode` starts from.
pub start_node : {Db : Type 0} → DbConfig → List Shard → Node Db
start_node cfg shards = record {
  cfg = cfg;
  master = none;
  slave = [];
  last_slave_index = 0;
  round_robin_q = [];
  slave_weights = [];
  shard = shards;
  shard_db = map (λ v. v.db) cfg.shard;
}

-- `NewNode`, without the goroutine of `CheckNode`; `draws` are the random numbers of `InitBalancer`.
pub new_node : {Db : Type 0} → Driver Db → (ℕ → ℕ) → DbConfig → Outcome (Node Db)
unfolding checked parsed_shards
new_node d draws cfg = if length cfg.master.addr == 0 then failed no_master_db else (do
  shards ← parsed_shards (parse_shard cfg.shard)
  n ← checked (parse_master d (start_node cfg shards))
  m ← checked (parse_slave d n)
  init_balancer draws m)

-- One pass of `checkMaster` and `checkSlave`: the texts of the errors that the handler is given.
check_master : {Db : Type 0} → Driver Db → (DaoError → Text) → Node Db → List Text
check_master d message n = elim n.master [
  | none ↦ codes "Node checkMaster  Master is not online" ∷ []
  | some db ↦ elim (d.ping db) [
    | none ↦ []
    | some e ↦ (codes "Node checkMaster  ping error " ++ message e) ∷ []
  ]
]

check_slaves :
    {Db : Type 0} → Driver Db → (DaoError → Text) → ℕ → List (Option Db) → Outcome (List Text)
check_slaves d message i [] = returned []
check_slaves d message i (none ∷ dbs) = panicked
check_slaves d message i (some db ∷ dbs) = do
  rest ← check_slaves d message (i + 1) dbs
  elim (d.ping db) [
    | none ↦ returned rest
    | some e ↦
        returned (
          (codes "Node checkSlave[" ++ format_uint i ++ codes "]  ping error " ++ message e) ∷ rest)
  ]

check_slave : {Db : Type 0} → Driver Db → (DaoError → Text) → Node Db → Outcome (List Text)
unfolding check_slaves
check_slave d message n = check_slaves d message 0 n.slave

-- `GetMasterConn` and `GetSlaveConn`; the node changes by the call of the balancer.
pub get_master_conn : {Db : Type 0} → Node Db → Outcome Db
get_master_conn n = elim n.master [ none ↦ failed no_master_conn | some db ↦ returned db ]

get_slave_conn : {Db : Type 0} → Node Db → Option (Node Db × Outcome Db)
get_slave_conn n = elim (get_next_slave n) [
  | none ↦ none
  | some (m, db, some e) ↦ some (m, failed e)
  | some (m, some db, none) ↦ some (m, returned db)
  | some (m, none, none) ↦ some (m, failed no_slave_db)
]

-- The inner loop of `checkShard` from the index `k` on.
pub find_config : ℕ → List ShardConfig → Text → Text → Option ℕ
find_config k [] db table = none
find_config k (v ∷ vs) db table =
    let rest = find_config (k + 1) vs db table in
    if same_text v.db db && same_text v.table table then some k else rest

shard_at : List Shard → ℕ → Outcome (Option Shard)
shard_at shards k = elim (get_elem? shards k) [ none ↦ panicked | some s ↦ returned (some s) ]

-- `checkShard`, whose second result is the test on `some`; an index past the shards panics.
pub check_shard : {Db : Type 0} → Node Db → List Text → Text → Text → Outcome (Option Shard)
check_shard n [] db table = returned none
check_shard n (shard_db ∷ shard_dbs) db table =
    let rest = check_shard n shard_dbs db table in
    if same_text shard_db db
    then elim (find_config 0 n.cfg.shard db table) [ none ↦ rest | some k ↦ shard_at n.shard k ]
    else rest

pub numbered_table : Text → Text → Option (Reply ℤ) → Outcome Text
numbered_table db table none = panicked
numbered_table db table (some (k, some e)) = failed (sharding e)
numbered_table db table (some (k, none)) =
    returned (db ++ codes "." ++ table ++ codes "_" ++ itoa k)

-- `GetTable`.
pub get_table : {Db : Type 0} → (ℤ → Date) → Node Db → Text → Text → List Value → Outcome Text
get_table local n db table key = do
  model ← check_shard n n.shard_db db table
  elim model [
    | none ↦ returned (db ++ codes "." ++ table)
    | some s ↦ numbered_table db table (find_for_key local s key)
  ]

pub get_master_conn_lem :
    {Db : Type 0} (n : Node Db) (db : Db) → n.master ≡ some db → get_master_conn n ≡ returned db
unfolding get_master_conn
get_master_conn_lem n db h = ground arith
