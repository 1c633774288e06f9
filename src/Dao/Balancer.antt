-- ===== src/Dao/Balancer.antt =====
-- components/dao/balancer.go: the weighted round robin over the slaves. Weights are not negative.
pub mod Gcd
pub mod Queue
pub mod Fair
pub mod Weighted
pub mod Tests
use Prim.Native.Nat.{min}
use j7f.Base.{
  ℕ, zero, suc, ◌+◌, ◌/◌, ◌%◌, Bool, true, false, ◌&&◌, List, [], ◌∷◌, ◌++◌, Option, none, some,
  ltb, leb, ◌==◌, if◌then◌else◌, length, get_elem?, set, replicate,
}
use j7f.Dao.{Node, DaoError, no_database, Outcome, returned, failed, panicked, ◌>>=◌}

-- The loop that looks for the least weight.
pub least : ℕ → List ℕ → ℕ
least m [] = m
least m (x ∷ xs) = least (if ltb x m then x else m) xs

pub is_common : ℕ → List ℕ → Bool
is_common m [] = true
is_common m (x ∷ xs) = x % m == 0 && is_common m xs

-- The second loop: `min` falls until it divides every weight, or to 0.
pub gcd_loop : List ℕ → ℕ → ℕ
unfolding is_common
gcd_loop ary zero = 0
gcd_loop ary (suc m) = elim (is_common (suc m) ary) [ true ↦ suc m | false ↦ gcd_loop ary m ]

-- `Gcd`: an empty slice and a division by zero panic.
pub gcd : List ℕ → Outcome ℕ
unfolding least gcd_loop
gcd [] = panicked
gcd (x ∷ xs) =
    let m = least x (x ∷ xs) in if m == 0 then panicked else returned (gcd_loop (x ∷ xs) m)

pub queue_sum : ℕ → List ℕ → ℕ
queue_sum g [] = 0
queue_sum g (w ∷ ws) = w / g + queue_sum g ws

-- The queue before the shuffle: each index, so many times.
pub fill_queue : ℕ → ℕ → List ℕ → List ℕ
fill_queue g index [] = []
fill_queue g index (w ∷ ws) = replicate (w / g) index ++ fill_queue g (index + 1) ws

-- The swap of a round; an index out of range panics.
pub swap : List ℕ → ℕ → ℕ → Outcome (List ℕ)
swap q x other = elim (get_elem? q x) [
  | none ↦ panicked
  | some temp ↦ elim (get_elem? q other) [
    | none ↦ panicked
    | some b ↦ returned (set (set q x b) other temp)
  ]
]

-- The shuffle from the round `i` on, for so many rounds; `draws i` is what `Intn` gives in it.
pub shuffle : (ℕ → ℕ) → ℕ → ℕ → ℕ → List ℕ → Outcome (List ℕ)
unfolding swap
shuffle draws sum i zero q = returned q
shuffle draws sum i (suc n) q = do
  q' ← swap q (draws i) (sum % (draws i + 1))
  shuffle draws sum (i + 1) n q'

-- `InitBalancer`.
pub init_balancer : {Db : Type 0} → (ℕ → ℕ) → Node Db → Outcome (Node Db)
init_balancer draws n = do
  g ← gcd n.slave_weights
  let sum = queue_sum g n.slave_weights
  let q = fill_queue g 0 n.slave_weights
  q' ← if ltb 1 (length n.slave_weights) then shuffle draws sum 0 sum q else returned q
  returned (record n { last_slave_index = 0; round_robin_q = q' })

-- `getNextSlave`: the node and the two results; a panic is `none`.
pub next_index : ℕ → ℕ → ℕ
next_index last queue_len = (last % queue_len + 1) % queue_len

pub get_next_slave : {Db : Type 0} → Node Db → Option (Node Db × Option Db × Option DaoError)
get_next_slave n =
    let queue_len = length n.round_robin_q in
    if queue_len == 0
    then some (n, none, some no_database)
    else if queue_len == 1
    then elim (get_elem? n.round_robin_q 0) [
      | none ↦ none
      | some index ↦ elim (get_elem? n.slave index) [ none ↦ none | some db ↦ some (n, db, none) ]
    ]
    else elim (get_elem? n.round_robin_q (n.last_slave_index % queue_len)) [
      | none ↦ none
      | some index ↦ elim (get_elem? n.slave index) [
        | none ↦
            some (
              record n { last_slave_index = n.last_slave_index % queue_len },
              none,
              some no_database,
            )
        | some db ↦
            some (record n { last_slave_index = next_index n.last_slave_index queue_len }, db, none)
      ]
    ]
