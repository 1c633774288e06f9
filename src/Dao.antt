-- ===== src/Dao.antt =====
-- components/dao: a database node with a master, weighted slaves and shards. A `*sql.DB` is a value of
-- `Db`, nil is `none`; opening a connection is a parameter.
pub mod Balancer
pub mod Conns
pub mod Transactions
use j7f.Base.{ℕ, List, Option, Text}
use j7f.Shard.{ShardError}
use j7f.Shard.Configs.{ShardConfig, Shard}

pub record NodeConfig : Type 0 where
  pub addr : Text
  pub user : Text
  pub password : Text
  pub timezone : Text
  pub weight : ℕ

pub record DbConfig : Type 0 where
  pub master : NodeConfig
  pub slave : List NodeConfig
  pub shard : List ShardConfig

-- The errors of components/dao/errors that the node returns, and those of the driver.
pub data DaoError : Type 0 where
  no_master_db no_master_conn no_slave_db no_database no_transaction : DaoError
  sharding : ShardError → DaoError
  driver : ℕ → DaoError

pub record Node (Db : Type 0) : Type 0 where
  pub cfg : DbConfig
  pub master : Option Db
  pub slave : List (Option Db)
  pub last_slave_index : ℕ
  pub round_robin_q : List ℕ
  pub slave_weights : List ℕ
  pub shard : List Shard
  pub shard_db : List Text

-- How a call ends.
pub data Outcome {ℓ} (A : Type ℓ) : Type ℓ where
  returned : A → Outcome A
  failed : DaoError → Outcome A
  panicked : Outcome A

infixl 5 ◌>>=◌
abbrev pub ◌>>=◌ {ℓ κ} : {A : Type ℓ} {B : Type κ} → Outcome A → (A → Outcome B) → Outcome B
returned a >>= f = f a
failed e >>= f = failed e
panicked >>= f = panicked
