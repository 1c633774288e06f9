-- ===== src/Dao/Balancer/Tests.antt =====
-- The balancer on small inputs.
use j7f.Base.{ℕ, ◌%◌, ◌≤◌, ◌<◌, ◌≡◌, refl, subst, List, [], ◌∷◌, some, Text, codes, arith}
use native.Mathlib.Nat.{mod-lt}
use j7f.Dao.{Node, NodeConfig, returned}
use j7f.Dao.Balancer.{init_balancer, gcd, queue_sum, shuffle, least, gcd_loop, is_common}
use j7f.Dao.Balancer.Gcd.{IsCommon, gcd_greatest}
use j7f.Dao.Balancer.Queue.{SameQueue, shuffle-SameQueue}
use j7f.Dao.Balancer.Fair.{calls, replies, full_round}
use j7f.Dao.Balancer.Weighted.{IsWeighted, init_balancer-IsWeighted}

abbrev a_server : NodeConfig
a_server = record { addr = codes "m"; user = []; password = []; timezone = []; weight = 1 }

-- Three slaves, in the middle of a round.
abbrev a_node : Node Text
a_node = record {
  cfg = record { master = a_server; slave = []; shard = [] };
  master = some (codes "m");
  slave = some (codes "a") ∷ some (codes "b") ∷ some (codes "c") ∷ [];
  last_slave_index = 1;
  round_robin_q = 0 ∷ 1 ∷ 1 ∷ [];
  slave_weights = 2 ∷ 4 ∷ 6 ∷ [];
  shard = [];
  shard_db = [];
}

gcd_greatest_example :
    (g : ℕ) × (gcd (4 ∷ 6 ∷ []) ≡ returned g)
    × (0 < g)
    × IsCommon g (4 ∷ 6 ∷ [])
    × ((d : ℕ) → IsCommon d (4 ∷ 6 ∷ []) → d ≤ g)
gcd_greatest_example = gcd_greatest 4 (6 ∷ []) (omega arith, (omega arith, tt))

shuffle-SameQueue_example : SameQueue (0 ∷ 1 ∷ 1 ∷ []) (shuffle (λ i. i % 3) 3 0 3 (0 ∷ 1 ∷ 1 ∷ []))
shuffle-SameQueue_example =
    shuffle-SameQueue (λ i. i % 3) 3 0 3 (0 ∷ 1 ∷ 1 ∷ []) (λ j. mod-lt j (omega arith)) refl

full_round_example : calls 3 a_node ≡ some (a_node, replies a_node.slave (1 ∷ 1 ∷ 0 ∷ []))
full_round_example = full_round a_node (omega arith) (omega arith, (omega arith, (omega arith, tt)))

gcd_246 : gcd (2 ∷ 4 ∷ 6 ∷ []) ≡ returned 2
unfolding gcd least gcd_loop is_common
gcd_246 = refl

-- The draw 0 is below the length of the queue.
pub below_sum : (g j : ℕ) → gcd (2 ∷ 4 ∷ 6 ∷ []) ≡ returned g → 0 < queue_sum g (2 ∷ 4 ∷ 6 ∷ [])
unfolding queue_sum
below_sum g j e =
    let p : 2 ≡ g = cc (gcd_246, e) in subst (λ g. 0 < queue_sum g (2 ∷ 4 ∷ 6 ∷ [])) p (omega arith)

init_balancer-IsWeighted_example :
    (m : Node Text) × (g : ℕ) × (order : List ℕ) × (init_balancer (λ i. 0) a_node ≡ returned m)
    × (m.slave ≡ a_node.slave)
    × (m.slave_weights ≡ 2 ∷ 4 ∷ 6 ∷ [])
    × IsWeighted m g order
init_balancer-IsWeighted_example =
    init_balancer-IsWeighted (λ i. 0) a_node 2 (4 ∷ 6 ∷ []) refl
      (omega arith, (omega arith, (omega arith, tt))) refl below_sum
