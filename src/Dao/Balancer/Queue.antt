-- ===== src/Dao/Balancer/Queue.antt =====
-- The queue of `InitBalancer`: how often each slave stands in it.
use j7f.Base.{
  ℕ, zero, suc, ◌+◌, ◌/◌, ◌%◌, ◌≤◌, ◌<◌, ◌≡◌, refl, ◌∙◌, List, [], ◌∷◌, ◌++◌, some, arith, ◌==◌,
  if◌then◌else◌, length, get_elem?, set, replicate, length-append, length-replicate, length-set,
}
use native.Mathlib.Nat.{mod-lt}
use j7f.Dao.{◌>>=◌, Outcome, returned}
use j7f.Dao.Balancer.{queue_sum, fill_queue, swap, shuffle}

abbrev pub count : ℕ → List ℕ → ℕ
count a [] = 0
count a (x ∷ xs) = (if x == a then 1 else 0) + count a xs

count-append :
    (index : ℕ) (front back : List ℕ)
    → count index (front ++ back) ≡ count index front + count index back
count-append index [] back = ground arith
count-append index (x ∷ front) back = ground (arith, count-append index front back)

count-replicate : (a b n : ℕ) → count a (replicate n b) ≡ (if b == a then n else 0)
count-replicate a b zero = ground arith
count-replicate a b (suc n) = ground (arith, count-replicate a b n)

pub length-fill_queue : (g i : ℕ) (ws : List ℕ) → length (fill_queue g i ws) ≡ queue_sum g ws
unfolding fill_queue queue_sum
length-fill_queue g i [] = refl
length-fill_queue g i (w ∷ ws) = omega (
  arith,
  length-append (replicate (w / g) i) (fill_queue g (i + 1) ws),
  length-replicate (w / g) i,
  length-fill_queue g (i + 1) ws,
)

count_below : (g i a : ℕ) (ws : List ℕ) → a < i → count a (fill_queue g i ws) ≡ 0
unfolding fill_queue
count_below g i a [] h = refl
count_below g i a (w ∷ ws) h = ground (
  arith,
  count-append a (replicate (w / g) i) (fill_queue g (i + 1) ws),
  count-replicate a i (w / g),
  count_below g (i + 1) a ws,
)

pub count_above : (g i a : ℕ) (ws : List ℕ) → i + length ws ≤ a → count a (fill_queue g i ws) ≡ 0
unfolding fill_queue
count_above g i a [] h = refl
count_above g i a (w ∷ ws) h = ground (
  arith,
  count-append a (replicate (w / g) i) (fill_queue g (i + 1) ws),
  count-replicate a i (w / g),
  count_above g (i + 1) a ws,
)

-- Each index stands in the queue as often as its weight counts.
pub count-fill_queue :
    (g i k : ℕ) (ws : List ℕ) (w : ℕ)
    → get_elem? ws k ≡ some w
    → count (i + k) (fill_queue g i ws) ≡ w / g
unfolding fill_queue
count-fill_queue g i k [] w h = cc
count-fill_queue g i zero (v ∷ ws) w h = ground (
  arith,
  count-append (i + 0) (replicate (v / g) i) (fill_queue g (i + 1) ws),
  count-replicate (i + 0) i (v / g),
  count_below g (i + 1) (i + 0) ws,
)
count-fill_queue g i (suc k) (v ∷ ws) w h =
    let e : i + 1 + k ≡ i + suc k = omega arith in
    ground (
      arith,
      count-append (i + suc k) (replicate (v / g) i) (fill_queue g (i + 1) ws),
      count-replicate (i + suc k) i (v / g),
      rw e at (count-fill_queue g (i + 1) k ws w h),
    )

-- A write changes the counts of the old and the new entry.
count-set :
    (a : ℕ) (q : List ℕ) (k v old : ℕ)
    → get_elem? q k ≡ some old
    → count a (set q k v) + (if old == a then 1 else 0) ≡ count a q + (if v == a then 1 else 0)
count-set a [] k v old h = cc
count-set a (x ∷ q) zero v old h = let e : x ≡ old = ground arith in rw e (omega arith)
count-set a (x ∷ q) (suc k) v old h = omega (arith, count-set a q k v old h)

get_elem?-set :
    (q : List ℕ) (k v j old : ℕ)
    → get_elem? q k ≡ some old
    → get_elem? (set q k v) j ≡ (if k == j then some v else get_elem? q j)
get_elem?-set [] k v j old h = cc
get_elem?-set (x ∷ q) zero v zero old h = refl
get_elem?-set (x ∷ q) zero v (suc j) old h = ground arith
get_elem?-set (x ∷ q) (suc k) v zero old h = ground arith
get_elem?-set (x ∷ q) (suc k) v (suc j) old h = ground (arith, get_elem?-set q k v j old h)

get_elem?-some : (q : List ℕ) (k : ℕ) → k < length q → (v : ℕ) × (get_elem? q k ≡ some v)
get_elem?-some [] k h = absurd (omega arith)
get_elem?-some (x ∷ q) zero h = (x, refl)
get_elem?-some (x ∷ q) (suc k) h = get_elem?-some q k (omega arith)

-- A swap within the queue keeps its length and its counts.
abbrev pub SameQueue : List ℕ → Outcome (List ℕ) → Type 0
SameQueue q r =
    (q' : List ℕ) × (r ≡ returned q') × (length q' ≡ length q) × ((a : ℕ) → count a q' ≡ count a q)

swap-SameQueue : (q : List ℕ) (x y : ℕ) → x < length q → y < length q → SameQueue q (swap q x y)
unfolding swap
swap-SameQueue q x y hx hy =
    let (s, e) = get_elem?-some q x hx in
    let (t, f) = get_elem?-some q y hy in
    let placed : get_elem? (set q x t) y ≡ some t = ground (arith, get_elem?-set q x t y s e, f) in
    (
      set (set q x t) y s,
      ground arith,
      length-set (set q x t) y s ∙ length-set q x t,
      λ a. omega (arith, count-set a (set q x t) y s t placed, count-set a q x t s e),
    )

-- With draws below the sum, which is the queue's length, the shuffle returns a queue of the
-- same length in which each entry stands as often as before.
pub shuffle-SameQueue :
    (draws : ℕ → ℕ) (sum i n : ℕ) (q : List ℕ)
    → ((j : ℕ) → draws j < sum)
    → length q ≡ sum
    → SameQueue q (shuffle draws sum i n q)
unfolding shuffle
shuffle-SameQueue draws sum i zero q h e = (q, refl, refl, λ a. refl)
shuffle-SameQueue draws sum i (suc n) q h e =
    let d = draws i in
    let below : d < sum = h i in
    let other : sum % (d + 1) < d + 1 = mod-lt sum (omega arith) in
    let (p, x, y, z) = swap-SameQueue q d (sum % (d + 1)) (omega arith) (omega arith) in
    let (r, x', y', z') = shuffle-SameQueue draws sum (i + 1) n p h (y ∙ e) in
    (r, rw (x, ◌>>=◌) x', y' ∙ y, λ a. z' a ∙ z a)
