-- ===== src/Dao/Transactions.antt =====
-- components/dao/node.go: transactions. The context carries the transaction and the function that
-- stops its timer; a call's effects are the events that it causes, in order.
pub mod Laws
pub mod Tests
use j7f.Base.{ℕ, ◌==◌, ◌||◌, ltb, List, [], ◌∷◌, Option, none, some, ◌⊎◌, inl, inr, if◌then◌else◌}
use j7f.Base.Int.{ℤ, pos, negsuc, eqb_ℤ, ltb_ℤ}
use j7f.Dao.{Node, DaoError, no_transaction, Outcome, returned, failed, panicked}
use j7f.Dao.Conns.{get_master_conn}

-- `TRANSACTION_MAX_RUNTIME`, in nanoseconds.
abbrev pub max_runtime : ℤ
max_runtime = pos 1000000000

-- The values that a context holds under `transactionKey` and `transactionCancelKey`: the transaction,
-- and the timer that the cancel function stops.
pub record Context (Tx : Type 0) : Type 0 where
  pub tx : Option Tx
  pub cancel : Option ℕ

pub data Event (Tx : Type 0) : Type 0 where
  timer_started : ℕ → ℤ → Event Tx
  timer_stopped : ℕ → Event Tx
  committed rolled_back : Tx → Event Tx

pub bounded_runtime : ℤ → ℤ
bounded_runtime t = if eqb_ℤ t (pos 0) || ltb_ℤ max_runtime t then max_runtime else t

-- `BeginTransaction`: `begin_tx` is the driver's answer, `timer` the timer that `WithTimeout` makes.
pub begin_transaction :
    {Db Tx : Type 0}
    → Node Db
    → (Db → Tx ⊎ DaoError)
    → ℕ
    → Context Tx
    → ℤ
    → List (Event Tx) × Outcome (Context Tx)
unfolding bounded_runtime
begin_transaction n begin_tx timer ctx runtime = elim (get_master_conn n) [
  | panicked ↦ ([], panicked)
  | failed e ↦ ([], failed e)
  | returned db ↦ (
    timer_started timer (bounded_runtime runtime) ∷ [],
    elim (begin_tx db) [
      | inr e ↦ failed e
      | inl tx ↦ returned (record { tx = some tx; cancel = some timer })
    ],
  )
]

-- `GetConnFromCtx`.
pub get_conn_from_ctx : {Tx : Type 0} → Context Tx → Outcome Tx
get_conn_from_ctx ctx = elim ctx.tx [ none ↦ failed no_transaction | some tx ↦ returned tx ]

-- What `Commit` and `Rollback` share: `if !ok { defer cancel() }` calls the function where there is none.
pub finish :
    {Tx : Type 0}
    → (Tx → Event Tx)
    → (Tx → Option DaoError)
    → Context Tx
    → List (Event Tx) × Outcome (Option DaoError)
finish event close ctx = elim (get_conn_from_ctx ctx) [
  | panicked ↦ ([], panicked)
  | failed e ↦ ([], failed e)
  | returned tx ↦
      (event tx ∷ [], elim ctx.cancel [ none ↦ panicked | some timer ↦ returned (close tx) ])
]

pub commit :
    {Tx : Type 0}
    → (Tx → Option DaoError)
    → Context Tx
    → List (Event Tx) × Outcome (Option DaoError)
unfolding finish
commit close ctx = finish committed close ctx

pub rollback :
    {Tx : Type 0}
    → (Tx → Option DaoError)
    → Context Tx
    → List (Event Tx) × Outcome (Option DaoError)
unfolding finish
rollback close ctx = finish rolled_back close ctx
