-- ===== src/Dao/Transactions/Tests.antt =====
-- A transaction on a node with a master.
use j7f.Base.{ℕ, [], none, some, Text, codes}
use j7f.Dao.{Node, NodeConfig}
use j7f.Dao.Transactions.{Context}

abbrev a_server : NodeConfig
a_server = record { addr = codes "m"; user = []; password = []; timezone = []; weight = 1 }

abbrev a_node : Node Text
a_node = record {
  cfg = record { master = a_server; slave = []; shard = [] };
  master = some (codes "m");
  slave = [];
  last_slave_index = 0;
  round_robin_q = [];
  slave_weights = [];
  shard = [];
  shard_db = [];
}

abbrev a_context : Context ℕ
a_context = record { tx = none; cancel = none }
