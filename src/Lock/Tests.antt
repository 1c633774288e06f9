-- ===== src/Lock/Tests.antt =====
-- Two goroutines, and a release whose store of `isLock` comes late.
use j7f.Base.{
  ◌+◌, ℕ, zero, suc, ◌≤◌, ◌≡◌, ◌*◌, refl, true, false, Bool, List, [], ◌∷◌, ◌++◌, if◌then◌else◌,
  codes, arith,
}
use j7f.Base.Int.{pos}
use j7f.Lock.{
  RedisLockConfig, set_expiry, set_tries, set_retry_delay, set_drift_factor, new_redsync, Pc,
  outside, Move, go, redis_ok, moves, new_lock,
}
use j7f.Lock.Options.{bounded, new_redsync_lem}
use j7f.Lock.Exclusion.{one, inside, mutual_exclusion, lost_for_ever, locks}

abbrev a_config : RedisLockConfig ℕ
a_config = record {
  name = codes "orders";
  expiry = pos 5;
  tries = pos 2;
  retry_delay = pos 0;
  drift_factor = 0;
  max_try_lock = pos 1000;
}

abbrev is_zero : ℕ → Bool
is_zero zero = true
is_zero (suc n) = false

new_redsync_lem_example :
    ((new_redsync is_zero a_config).1 ≡ pos (bounded 200 50 1000))
    × ((new_redsync is_zero a_config).2
        ≡ set_expiry (pos 1000000000)
          ∷ set_tries (pos (bounded 3 3 2))
          ∷ set_retry_delay (pos (bounded 50 50 0 * 1000000))
          ∷ (if is_zero 0 then [] else set_drift_factor 0 ∷ []))
new_redsync_lem_example = new_redsync_lem is_zero a_config 5 2 0 1000 refl refl refl refl

abbrev two_goroutines : List Pc
two_goroutines = outside ∷ outside ∷ []

-- The second one locks between the two accesses of the first one's `Unlock`.
abbrev late_store : List (Move × ℕ)
late_store =
    locks redis_ok
    ++ (go, 0) ∷ (go, 0) ∷ (go, 1) ∷ (go, 1) ∷ (go, 1) ∷ (go, 0) ∷ (redis_ok, 1) ∷ (go, 1) ∷ []

mutual_exclusion_example :
    let r = moves late_store (new_lock two_goroutines) in
    (inside r.pcs ≤ one r.locked) × (inside r.pcs + r.unheld ≡ one r.locked)
mutual_exclusion_example = mutual_exclusion two_goroutines late_store (refl, (refl, tt))

one_unheld : (moves late_store (new_lock two_goroutines)).unheld ≡ 1
unfolding moves new_lock
one_unheld = refl

lost_for_ever_example :
    inside (moves ((go, 0) ∷ []) (moves late_store (new_lock two_goroutines))).pcs ≡ 0
lost_for_ever_example =
    lost_for_ever two_goroutines late_store ((go, 0) ∷ []) (refl, (refl, tt))
      (omega (arith, one_unheld))
