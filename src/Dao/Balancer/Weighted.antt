-- ===== src/Dao/Balancer/Weighted.antt =====
-- `InitBalancer` and `getNextSlave` together: weighted round robin.
use j7f.Base.{
  ℕ, ◌+◌, ◌/◌, ◌%◌, ◌<◌, ◌≡◌, refl, subst, ap, ◌∙◌, sym, List, [], ◌∷◌, Option, some, arith, ltb,
  if◌then◌else◌, length, All, get_elem?, append-nil, Bool-cases, inl, inr,
}
use j7f.Dao.{Node, returned, panicked, ◌>>=◌}
use j7f.Dao.Balancer.{init_balancer, gcd, queue_sum, fill_queue, shuffle}
use j7f.Dao.Balancer.Gcd.{AllPositive, gcd_greatest}
use j7f.Dao.Balancer.Queue.{
  count, length-fill_queue, count-fill_queue, count_above, SameQueue, shuffle-SameQueue,
}
use j7f.Dao.Balancer.Fair.{calls, replies, full_round}

All-of_count : (P : ℕ → Type 0) (q : List ℕ) → ((a : ℕ) → 0 < count a q → P a) → All P q
All-of_count P [] h = tt
All-of_count P (x ∷ q) h = (h x (ground arith), All-of_count P q (λ a k. h a (ground arith)))

queue_of :
    (draws : ℕ → ℕ) (g : ℕ) (ws : List ℕ)
    → ((j : ℕ) → draws j < queue_sum g ws)
    → let q = fill_queue g 0 ws in
      SameQueue q (
        if ltb 1 (length ws)
        then shuffle draws (queue_sum g ws) 0 (queue_sum g ws) q
        else returned q)
queue_of draws g ws h = elim (Bool-cases (ltb 1 (length ws))) [
  | inl e ↦ rw e (
      shuffle-SameQueue draws (queue_sum g ws) 0 (queue_sum g ws) (fill_queue g 0 ws) h
        (length-fill_queue g 0 ws))
  | inr e ↦ rw e (fill_queue g 0 ws, refl, refl, λ a. refl)
]

-- What the balancer does in a round: as many calls as the weights, divided by their greatest common
-- divisor, add up to; each slave is returned as often as its own divided weight.
pub record IsWeighted {Db : Type 0} (n : Node Db) (g : ℕ) (order : List ℕ) : Type 0 where
  pub divisor : gcd n.slave_weights ≡ returned g
  pub round : calls (queue_sum g n.slave_weights) n ≡ some (n, replies n.slave order)
  pub size : length order ≡ queue_sum g n.slave_weights
  pub share : (k w : ℕ) → get_elem? n.slave_weights k ≡ some w → count k order ≡ w / g

init_lem :
    {Db : Type 0} (draws : ℕ → ℕ) (n : Node Db) (g : ℕ) (q' : List ℕ)
    → gcd n.slave_weights ≡ returned g
    → (if ltb 1 (length n.slave_weights)
        then shuffle draws
            (queue_sum g n.slave_weights)
            0
            (queue_sum g n.slave_weights)
            (fill_queue g 0 n.slave_weights)
        else returned (fill_queue g 0 n.slave_weights))
      ≡ returned q'
    → init_balancer draws n ≡ returned (record n { last_slave_index = 0; round_robin_q = q' })
unfolding init_balancer
init_lem draws n g q' e f = rw (e, f, ◌>>=◌) refl

first_share : (g w : ℕ) → 0 < g → 0 < w → w % g ≡ 0 → 0 < w / g
first_share g w h p e = grind arith

share_of :
    (g k : ℕ) (ws : List ℕ) (w : ℕ) → get_elem? ws k ≡ some w → count k (fill_queue g 0 ws) ≡ w / g
share_of g k ws w h = let e : 0 + k ≡ k = omega arith in rw e at (count-fill_queue g 0 k ws w h)

present :
    {Db : Type 0} (q : List ℕ) (slave : List (Option Db)) (g a : ℕ) (ws : List ℕ)
    → length ws ≡ length slave
    → count a q ≡ count a (fill_queue g 0 ws)
    → 0 < count a q
    → a < length slave
present q slave g a ws e f h = elim (Bool-cases (ltb a (length slave))) [
  | inl p ↦ ground arith
  | inr p ↦ absurd (ground (arith, count_above g 0 a ws))
]

-- For positive weights, a slave for each, and draws below the length of the queue,
-- `InitBalancer` returns a node with the same slaves and weights whose calls of `getNextSlave`,
-- as many as the weights divided by their greatest common divisor add up to, return each slave
-- as often as its divided weight, and end at the same node.
pub init_balancer-IsWeighted :
    {Db : Type 0} (draws : ℕ → ℕ) (n : Node Db) (w : ℕ) (ws : List ℕ)
    → n.slave_weights ≡ w ∷ ws
    → AllPositive (w ∷ ws)
    → length n.slave ≡ length (w ∷ ws)
    → ((g j : ℕ) → gcd (w ∷ ws) ≡ returned g → draws j < queue_sum g (w ∷ ws))
    → (m : Node Db) × (g : ℕ) × (order : List ℕ) × (init_balancer draws n ≡ returned m)
      × (m.slave ≡ n.slave)
      × (m.slave_weights ≡ n.slave_weights)
      × IsWeighted m g order
unfolding queue_sum
init_balancer-IsWeighted draws n w ws e h l d =
    let (g, x, pos, common, greatest) = gcd_greatest w ws h in
    let weights = n.slave_weights in
    let x' : gcd weights ≡ returned g = ap gcd e ∙ x in
    let d' : (j : ℕ) → draws j < queue_sum g weights = rw e (λ j. d g j x) in
    let (q, y, len, same) = queue_of draws g weights d' in
    let m = record n { last_slave_index = 0; round_robin_q = q } in
    let size : length q ≡ queue_sum g weights = len ∙ length-fill_queue g 0 weights in
    let nonempty : 0 < length q = rw (size, e) (omega (arith, first_share g w pos h.0 common.0)) in
    let slaves : length weights ≡ length n.slave = ap length e ∙ sym l in
    let known = λ (a : ℕ) (p : 0 < count a q). present q n.slave g a weights slaves (same a) p in
    let whole : calls (length q) m ≡ some (m, replies n.slave q) =
      full_round m nonempty (All-of_count _ q known)
      ∙ ap (λ order. some (m, replies n.slave order)) (append-nil q) in
    (
      m,
      g,
      q,
      init_lem draws n g q x' y,
      refl,
      refl,
      record {
        divisor = x';
        round = subst (λ k. calls k m ≡ some (m, replies n.slave q)) size whole;
        size = size;
        share = λ k v at_k. same k ∙ share_of g k weights v at_k;
      },
    )

pub init_balancer_panics :
    {Db : Type 0} (draws : ℕ → ℕ) (n : Node Db)
    → gcd n.slave_weights ≡ panicked
    → init_balancer draws n ≡ panicked
unfolding init_balancer
init_balancer_panics draws n h = rw (h, ◌>>=◌) refl
