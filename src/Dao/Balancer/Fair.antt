-- ===== src/Dao/Balancer/Fair.antt =====
-- A round of `getNextSlave` serves each slave by its weight.
use j7f.Base.{
  ℕ, zero, suc, ◌+◌, ◌%◌, ◌<◌, ◌≡◌, refl, subst, ap, ap₂, ◌∙◌, sym, List, [], ◌∷◌, ◌++◌,
  append_assoc, Option, none, some, arith, ◌==◌, if◌then◌else◌, length, All, get_elem?, take, drop,
  length-append, length-drop, length-take, take-append-drop, get_elem?-append, Option-cases,
  Bool-cases, inl, inr,
}
use native.Mathlib.Nat.{mod-eq_of_lt, mod_self}
use j7f.Dao.{Node, DaoError}
use j7f.Dao.Balancer.{next_index, get_next_slave}

-- So many calls, one after the other, and what they return: the connections, or the first failure.
pub calls : {Db : Type 0} → ℕ → Node Db → Option (Node Db × List (Option Db × Option DaoError))
calls zero n = some (n, [])
calls (suc k) n = elim (get_next_slave n) [
  | none ↦ none
  | some (m, db, err) ↦ elim (calls k m) [ none ↦ none | some (m', rs) ↦ some (m', (db, err) ∷ rs) ]
]

-- The connection of a slave, as `getNextSlave` returns it.
abbrev pub reply_of : {Db : Type 0} → List (Option Db) → ℕ → Option Db × Option DaoError
reply_of slave i = elim (get_elem? slave i) [ none ↦ (none, none) | some db ↦ (db, none) ]

abbrev pub replies : {Db : Type 0} → List (Option Db) → List ℕ → List (Option Db × Option DaoError)
replies slave [] = []
replies slave (i ∷ is) = reply_of slave i ∷ replies slave is

next_index_lem : (i len : ℕ) → i < len → next_index i len ≡ (if i + 1 == len then 0 else i + 1)
unfolding next_index
next_index_lem i len h = elim (Bool-cases (i + 1 == len)) [
  | inl q ↦
      let e : i + 1 ≡ len = ground arith in rw (mod-eq_of_lt h, e) (ground (arith, mod_self len))
  | inr q ↦ rw (mod-eq_of_lt h) (ground (arith, mod-eq_of_lt {n = i + 1} {m = len}))
]

abbrev pub at_index : {Db : Type 0} → Node Db → ℕ → Node Db
at_index n i = record n { last_slave_index = i }

-- A call at an index returns the slave there and moves on by one, round the queue.
next_step :
    {Db : Type 0} (n : Node Db) (i s : ℕ) (db : Option Db)
    → i < length n.round_robin_q
    → get_elem? n.round_robin_q i ≡ some s
    → get_elem? n.slave s ≡ some db
    → get_next_slave (at_index n i)
      ≡ some (at_index n (next_index i (length n.round_robin_q)), db, none)
unfolding get_next_slave
next_step n i s db h e f =
    let len = length n.round_robin_q in
    elim (Bool-cases (len == 1)) [
      | inl q ↦
          let z : i ≡ 0 = ground arith in
          let l : len ≡ 1 = ground arith in
          let stay : next_index i len ≡ i = next_index_lem i len h ∙ ground arith in
          ground (arith, stay)
      | inr q ↦ let m : i % len ≡ i = mod-eq_of_lt h in ground (arith, m)
    ]

get_slave :
    {Db : Type 0} (xs : List (Option Db)) (i : ℕ)
    → i < length xs
    → (x : Option Db) × (get_elem? xs i ≡ some x)
get_slave [] i h = absurd (omega arith)
get_slave (x ∷ xs) zero h = (x, refl)
get_slave (x ∷ xs) (suc i) h = get_slave xs i (omega arith)

replies-append :
    {Db : Type 0} (slave : List (Option Db)) (xs ys : List ℕ)
    → replies slave (xs ++ ys) ≡ replies slave xs ++ replies slave ys
replies-append slave [] ys = refl
replies-append slave (x ∷ xs) ys = ap (◌∷◌ (reply_of slave x)) (replies-append slave xs ys)

calls-add :
    {Db : Type 0} (j k : ℕ) (n m p : Node Db) (rs qs : List (Option Db × Option DaoError))
    → calls j n ≡ some (m, rs)
    → calls k m ≡ some (p, qs)
    → calls (j + k) n ≡ some (p, rs ++ qs)
unfolding calls
calls-add zero k n m p rs qs h g = ground arith
calls-add (suc j) k n m p rs qs h g =
    let e : suc j + k ≡ suc (j + k) = omega arith in
    elim (Option-cases (get_next_slave n)) [
      | inl x ↦ ground arith
      | inr ((n', db, err), x) ↦ elim (Option-cases (calls j n')) [
        | inl y ↦ ground arith
        | inr ((m', rs'), y) ↦ rw e (ground (arith, calls-add j k n' m' p rs' qs))
      ]
    ]

All-split : (P : ℕ → Type 0) (xs ys : List ℕ) → All P (xs ++ ys) → All P xs × All P ys
All-split P [] ys h = (tt, h)
All-split P (x ∷ xs) ys h = let (a, b) = All-split P xs ys h.1 in ((h.0, a), b)

drop_cons : (k : ℕ) (xs : List ℕ) → k < length xs → (x : ℕ) × (ys : List ℕ) × (drop k xs ≡ x ∷ ys)
drop_cons k [] h = absurd (omega arith)
drop_cons zero (x ∷ xs) h = (x, xs, refl)
drop_cons (suc k) (x ∷ xs) h = drop_cons k xs (omega arith)

module _ {Db : Type 0} (n : Node Db) where
  abbrev Present : ℕ → Type 0
  Present s = s < length n.slave

  -- One call, and the calls after it.
  calls_step :
      (k i j s : ℕ) (m : Node Db) (rs : List (Option Db × Option DaoError))
      → i < length n.round_robin_q
      → get_elem? n.round_robin_q i ≡ some s
      → Present s
      → next_index i (length n.round_robin_q) ≡ j
      → calls k (at_index n j) ≡ some (m, rs)
      → calls (suc k) (at_index n i) ≡ some (m, reply_of n.slave s ∷ rs)
  unfolding calls
  calls_step k i j s m rs h e p g c =
      let (db, f) = get_slave n.slave s p in
      let first : get_next_slave (at_index n i) ≡ some (at_index n j, db, none) =
        next_step n i s db h e f ∙ ap (λ x. some (at_index n x, db, none)) g in
      ground (arith, first)

  -- Calls along a part of the queue return its slaves in order, and stop behind it.
  run_part :
      (before part : List ℕ) (a : ℕ) (after : List ℕ) (i : ℕ)
      → n.round_robin_q ≡ before ++ (part ++ a ∷ after)
      → All Present part
      → i ≡ length before
      → calls (length part) (at_index n i)
        ≡ some (at_index n (i + length part), replies n.slave part)
  run_part before [] a after i e h p =
      unfold calls in ap (λ x. some (at_index n x, [])) (omega arith)
  run_part before (s ∷ part) a after i e h p =
      let size = ap length e ∙ length-append before (s ∷ part ++ a ∷ after) in
      let more = length-append part (a ∷ after) in
      let here : get_elem? n.round_robin_q i ≡ some s =
        ap (λ q. get_elem? q i) e ∙ get_elem?-append i before (part ++ a ∷ after) s p in
      let next : next_index i (length n.round_robin_q) ≡ i + 1 =
        next_index_lem i (length n.round_robin_q) (omega arith) ∙ ground (arith, size, more) in
      let rest =
        run_part (before ++ s ∷ []) part a after (i + 1)
          (e ∙ sym (append_assoc before (s ∷ []) (part ++ a ∷ after))) h.1
          (omega (arith, length-append before (s ∷ []))) in
      calls_step (length part) i (i + 1) s _ _ (omega arith) here h.0 next rest
      ∙ ap (λ x. some (at_index n x, replies n.slave (s ∷ part))) (omega arith)

  -- Calls along the end of the queue return to its start.
  run_end :
      (before : List ℕ) (s : ℕ) (part : List ℕ) (i : ℕ)
      → n.round_robin_q ≡ before ++ s ∷ part
      → All Present (s ∷ part)
      → i ≡ length before
      → calls (suc (length part)) (at_index n i) ≡ some (at_index n 0, replies n.slave (s ∷ part))
  run_end before s [] i e h p =
      let size = ap length e ∙ length-append before (s ∷ []) in
      let here : get_elem? n.round_robin_q i ≡ some s =
        ap (λ q. get_elem? q i) e ∙ get_elem?-append i before [] s p in
      let next : next_index i (length n.round_robin_q) ≡ 0 =
        next_index_lem i (length n.round_robin_q) (omega arith) ∙ ground (arith, size) in
      calls_step 0 i 0 s _ _ (omega arith) here h.0 next (unfold calls in refl)
  run_end before s (t ∷ part) i e h p =
      let size = ap length e ∙ length-append before (s ∷ t ∷ part) in
      let here : get_elem? n.round_robin_q i ≡ some s =
        ap (λ q. get_elem? q i) e ∙ get_elem?-append i before (t ∷ part) s p in
      let next : next_index i (length n.round_robin_q) ≡ i + 1 =
        next_index_lem i (length n.round_robin_q) (omega arith) ∙ ground (arith, size) in
      let rest =
        run_end (before ++ s ∷ []) t part (i + 1)
          (e ∙ sym (append_assoc before (s ∷ []) (t ∷ part))) h.1
          (omega (arith, length-append before (s ∷ []))) in
      calls_step (suc (length part)) i (i + 1) s _ _ (omega arith) here h.0 next rest

-- From an index within the queue, whose entries are all indices of slaves, as many calls of
-- `getNextSlave` as the queue is long succeed, return the slaves in the order of the queue from
-- that index on and round to it again, and end at the same node.
pub full_round :
    {Db : Type 0} (n : Node Db)
    → n.last_slave_index < length n.round_robin_q
    → All (λ s. s < length n.slave) n.round_robin_q
    → let l = n.last_slave_index in
      let q = n.round_robin_q in
      calls (length q) n ≡ some (n, replies n.slave (drop l q ++ take l q))
full_round n h present =
    let l = n.last_slave_index in
    let q = n.round_robin_q in
    let (s, part, e) = drop_cons l q h in
    let whole : q ≡ take l q ++ s ∷ part = sym (take-append-drop l q) ∙ ap (◌++◌ (take l q)) e in
    let (low, high) =
      All-split _ (take l q) (s ∷ part) (subst (All (λ s. s < length n.slave)) whole present) in
    let size : l ≡ length (take l q) = omega (arith, length-take l q) in
    let first = run_end n (take l q) s part l whole high size in
    let second = run_part n [] (take l q) s part 0 whole low refl in
    let both =
      calls-add (suc (length part)) (length (take l q)) n (at_index n 0) _ _ _ first second in
    let rest = ap length e in
    let total : length q ≡ suc (length part) + length (take l q) =
      omega (arith, length-drop l q, rest) in
    let back : 0 + length (take l q) ≡ l = omega arith in
    let order : replies n.slave (s ∷ part) ++ replies n.slave (take l q)
        ≡ replies n.slave (drop l q ++ take l q) =
      sym (replies-append n.slave (s ∷ part) (take l q))
      ∙ ap (λ (x : List ℕ). replies n.slave (x ++ take l q)) (sym e) in
    ap (λ k. calls k n) total ∙ both ∙ ap₂ (λ (x : ℕ) rs. some (at_index n x, rs)) back order
