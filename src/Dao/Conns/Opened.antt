-- ===== src/Dao/Conns/Opened.antt =====
-- `NewNode`: the node that it returns, and where it panics.
use j7f.Base.{
  ℕ, suc, ◌<◌, ◌≡◌, refl, sym, ap, ap₂, ◌∙◌, ◌⊎◌, false, List, [], ◌∷◌, ◌++◌, append_assoc,
  append-nil, map, Option, none, some, arith, ◌==◌, if◌then◌else◌, length, get_elem?, All,
}
use j7f.Shard.Configs.{Shard, parse_shard}
use j7f.Dao.{Node, NodeConfig, DbConfig, DaoError, returned, panicked, ◌>>=◌}
use j7f.Dao.Balancer.{init_balancer, gcd, queue_sum}
use j7f.Dao.Balancer.Gcd.{AllPositive, gcd_panics}
use j7f.Dao.Balancer.Weighted.{IsWeighted, init_balancer-IsWeighted, init_balancer_panics}
use j7f.Dao.Conns.{
  Driver, open_db, parse_master, parse_slaves, parse_slave, checked, parsed_shards, start_node,
  new_node,
}

-- A database that answers its first ping.
abbrev pub IsUp : {Db : Type 0} → Driver Db → NodeConfig → Type 0
IsUp {Db = Db} d dsn = (db : Db) × (open_db d dsn ≡ (some db, none))

abbrev pub weights : List NodeConfig → List ℕ
weights = map (λ s. s.weight)

-- What opening each of them gives.
abbrev pub conns : {Db : Type 0} → Driver Db → List NodeConfig → List (Option Db)
conns d = map (λ s. (open_db d s).0)

parse_slaves_step :
    {Db : Type 0} (d : Driver Db) (s : NodeConfig) (slaves : List NodeConfig) (n : Node Db)
    (db : Db)
    → open_db d s ≡ (some db, none)
    → parse_slaves d (s ∷ slaves) n
      ≡ parse_slaves d slaves (record n {
        slave_weights = n.slave_weights ++ s.weight ∷ [];
        slave = n.slave ++ some db ∷ [];
      })
unfolding parse_slaves
parse_slaves_step {Db = Db} d s slaves n db e =
    ap
      (λ (r : Option Db × Option DaoError). elim r.1 as (λ _. Node Db × Option DaoError) [
        | some x ↦ (record n { slave_weights = n.slave_weights ++ s.weight ∷ [] }, some x)
        | none ↦ parse_slaves d slaves (record n {
          slave_weights = n.slave_weights ++ s.weight ∷ [];
          slave = n.slave ++ r.0 ∷ [];
        })
      ])
      e

abbrev with_slaves : {Db : Type 0} → Node Db → List ℕ → List (Option Db) → Node Db
with_slaves n ws dbs = record n { slave_weights = ws; slave = dbs }

parse_slaves_up :
    {Db : Type 0} (d : Driver Db) (slaves : List NodeConfig) (n : Node Db)
    → All (IsUp d) slaves
    → (dbs : List (Option Db)) × (dbs ≡ conns d slaves)
      × (parse_slaves d slaves n
          ≡ (with_slaves n (n.slave_weights ++ weights slaves) (n.slave ++ dbs), none))
parse_slaves_up d [] n h = (
  [],
  refl,
  unfold parse_slaves in
      ap₂ (λ ws dbs. (with_slaves n ws dbs, none)) (sym (append-nil n.slave_weights))
        (sym (append-nil n.slave)),
)
parse_slaves_up d (s ∷ slaves) n ((db, e), h) =
    let next = with_slaves n (n.slave_weights ++ s.weight ∷ []) (n.slave ++ some db ∷ []) in
    let (dbs, size, f) = parse_slaves_up d slaves next h in
    (
      some db ∷ dbs,
      ap₂ ◌∷◌ (sym (ap (λ r. r.0) e)) size,
      parse_slaves_step d s slaves n db e
          ∙ (f
              ∙ ap₂ (λ ws dbs. (with_slaves n ws dbs, none))
                  (append_assoc n.slave_weights (s.weight ∷ []) (weights slaves))
                  (append_assoc n.slave (some db ∷ []) dbs)),
    )

-- The node before the slaves are opened.
abbrev mastered : {Db : Type 0} → DbConfig → List Shard → Option Db → Node Db
mastered cfg shards master = record (start_node cfg shards) { master = master }

parse_slave_loop :
    {Db : Type 0} (d : Driver Db) (slaves : List NodeConfig) (n : Node Db)
    → (if length slaves == 0 then (n, none) else parse_slaves d slaves n) ≡ parse_slaves d slaves n
unfolding parse_slaves
parse_slave_loop d [] n = refl
parse_slave_loop d (s ∷ slaves) n = ground arith

parse_slave_up :
    {Db : Type 0} (d : Driver Db) (cfg : DbConfig) (shards : List Shard) (master : Option Db)
    → All (IsUp d) cfg.slave
    → (dbs : List (Option Db)) × (dbs ≡ conns d cfg.slave)
      × (parse_slave d (mastered cfg shards master)
          ≡ (with_slaves (mastered cfg shards master) (weights cfg.slave) dbs, none))
unfolding parse_slave start_node
parse_slave_up d cfg shards master up =
    let (dbs, size, e) = parse_slaves_up d cfg.slave (mastered cfg shards master) up in
    (dbs, size, parse_slave_loop d cfg.slave (mastered cfg shards master) ∙ e)

parse_master_up :
    {Db : Type 0} (d : Driver Db) (cfg : DbConfig) (shards : List Shard) (master : Db)
    → open_db d cfg.master ≡ (some master, none)
    → parse_master d (start_node cfg shards) ≡ (mastered cfg shards (some master), none)
unfolding parse_master start_node
parse_master_up d cfg shards master e = rw e refl

-- With every database up, the node is that of `InitBalancer`.
new_node_up :
    {Db : Type 0} (d : Driver Db) (draws : ℕ → ℕ) (cfg : DbConfig) (shards : List Shard)
    → 0 < length cfg.master.addr
    → parse_shard cfg.shard ≡ some shards
    → IsUp d cfg.master
    → All (IsUp d) cfg.slave
    → (master : Db) × (dbs : List (Option Db)) × (dbs ≡ conns d cfg.slave)
      × (new_node d draws cfg
          ≡ init_balancer draws
              (with_slaves (mastered cfg shards (some master)) (weights cfg.slave) dbs))
unfolding new_node checked parsed_shards
new_node_up {Db = Db} d draws cfg shards h e (master, m) up =
    let (dbs, size, s) = parse_slave_up d cfg shards (some master) up in
    let rest = λ (n : Node Db). checked (parse_slave d n) >>= init_balancer draws in
    let named : (length cfg.master.addr == 0) ≡ false = ground arith in
    (
      master,
      dbs,
      size,
      rw (named, e)
          (ap (λ r. checked r >>= rest) (parse_master_up d cfg shards master m)
            ∙ ap (λ r. checked r >>= init_balancer draws) s),
    )

-- With an address of the master, configurations that `ParseShard` takes and every database up,
-- `NewNode` panics where no slave is configured, or one with a weight of zero.
new_node_panics :
    {Db : Type 0} (d : Driver Db) (draws : ℕ → ℕ) (cfg : DbConfig) (shards : List Shard) (k : ℕ)
    → 0 < length cfg.master.addr
    → parse_shard cfg.shard ≡ some shards
    → IsUp d cfg.master
    → All (IsUp d) cfg.slave
    → (weights cfg.slave ≡ []) ⊎ (get_elem? (weights cfg.slave) k ≡ some 0)
    → new_node d draws cfg ≡ panicked
new_node_panics d draws cfg shards k h e m up w =
    let (master, dbs, size, x) = new_node_up d draws cfg shards h e m up in
    x ∙ init_balancer_panics draws _ (gcd_panics (weights cfg.slave) k w)

length-conns :
    {Db : Type 0} (d : Driver Db) (slaves : List NodeConfig)
    → length (conns d slaves) ≡ length (weights slaves)
length-conns d [] = refl
length-conns d (s ∷ slaves) = ap suc (length-conns d slaves)

-- With an address of the master, configurations that `ParseShard` takes, every database up, a
-- slave at least, positive weights, and draws below the length of the queue, `NewNode` returns
-- a node that has the opened slaves and their weights, and whose calls of `getNextSlave`, as
-- many as the weights divided by their greatest common divisor add up to, return the slave of
-- each weight that often and end at the same node.
pub new_node-IsWeighted :
    {Db : Type 0} (d : Driver Db) (draws : ℕ → ℕ) (cfg : DbConfig) (shards : List Shard) (w : ℕ)
    (ws : List ℕ)
    → 0 < length cfg.master.addr
    → parse_shard cfg.shard ≡ some shards
    → IsUp d cfg.master
    → All (IsUp d) cfg.slave
    → weights cfg.slave ≡ w ∷ ws
    → AllPositive (w ∷ ws)
    → ((g j : ℕ) → gcd (w ∷ ws) ≡ returned g → draws j < queue_sum g (w ∷ ws))
    → (n : Node Db) × (g : ℕ) × (order : List ℕ) × (new_node d draws cfg ≡ returned n)
      × (n.slave ≡ conns d cfg.slave)
      × (n.slave_weights ≡ w ∷ ws)
      × IsWeighted n g order
new_node-IsWeighted d draws cfg shards w ws h e m up x pos below =
    let (master, dbs, opened, y) = new_node_up d draws cfg shards h e m up in
    let n = with_slaves (mastered cfg shards (some master)) (weights cfg.slave) dbs in
    let slaves : length dbs ≡ length (w ∷ ws) =
      ap length opened ∙ (length-conns d cfg.slave ∙ ap length x) in
    let (n', g, order, z, same, weighed, fair) =
      init_balancer-IsWeighted draws n w ws x pos slaves below in
    (n', g, order, y ∙ z, same ∙ opened, weighed ∙ x, fair)
