-- ===== src/Lock.antt =====
-- components/lock/redis.go: a lock of this process and of redis at once. The options of `NewRedsync`, and
-- `Lock` and `Unlock` of goroutines that share one lock, an access of the mutex or of `isLock` at a
-- time; redis and the clock answer by the moves.
pub mod Options
pub mod Exclusion
pub mod Tests
use j7f.Base.{
  ℕ, ◌+◌, ◌*◌, Bool, true, false, ◌||◌, List, [], ◌∷◌, ◌++◌, Option, none, some, Text,
  if◌then◌else◌, ◌==◌, get_elem?, set,
}
use j7f.Base.Int.{ℤ, pos, ltb_ℤ, eqb_ℤ, ◌*ℤ◌, wrap_i64}

abbrev pub max_redis_lock_expiry : ℤ
max_redis_lock_expiry = pos 1

abbrev pub max_tries : ℤ
max_tries = pos 3

abbrev pub max_retry_delay : ℤ
max_retry_delay = pos 50

abbrev pub max_try_get_lock : ℤ
max_try_get_lock = pos 200

-- The options of redsync; durations are in nanoseconds.
pub data RedsyncOption (Float : Type 0) : Type 0 where
  set_expiry set_tries set_retry_delay : ℤ → RedsyncOption Float
  set_drift_factor : Float → RedsyncOption Float

pub record RedisLockConfig (Float : Type 0) : Type 0 where
  pub name : Text
  pub expiry : ℤ
  pub tries : ℤ
  pub retry_delay : ℤ
  pub drift_factor : Float
  pub max_try_lock : ℤ

-- A value that is too large, or zero, becomes another.
pub or_default : ℤ → ℤ → ℤ → ℤ
or_default most other n = if ltb_ℤ most n || eqb_ℤ n (pos 0) then other else n

-- The configuration after the call, the time to live of the lock, and the options.
pub new_redsync :
    {Float : Type 0}
    → (Float → Bool)
    → RedisLockConfig Float
    → RedisLockConfig Float × ℤ × List (RedsyncOption Float)
unfolding or_default
new_redsync is_zero c =
    let expiry = or_default max_redis_lock_expiry max_redis_lock_expiry c.expiry in
    let tries = or_default max_tries max_tries c.tries in
    let delay = or_default max_retry_delay max_retry_delay c.retry_delay in
    let ttl = or_default max_try_get_lock max_retry_delay c.max_try_lock in
    let drift = if is_zero c.drift_factor then [] else set_drift_factor c.drift_factor ∷ [] in
    (
      record c { expiry = expiry; tries = tries; retry_delay = delay; max_try_lock = ttl },
      ttl,
      set_expiry (wrap_i64 (expiry *ℤ pos 1000000000))
          ∷ set_tries tries
          ∷ set_retry_delay (wrap_i64 (delay *ℤ pos 1000000))
          ∷ drift,
    )

-- Where a goroutine stands. In `Lock`: before `sl.Lock`, before the store of `isLock`, in the `select`,
-- before `sl.Unlock` after an error of redis or the end of the time, before the store that follows; after
-- `Lock`; and in `Unlock` before `sl.Unlock`, the store and `rl.Unlock`.
pub data Pc : Type 0 where
  outside waiting entered selecting failing clearing holding unlocking storing releasing : Pc

-- `unheld` counts the calls of `Unlock` that leave the mutex locked.
pub record RedisLock : Type 0 where
  pub is_lock : ℕ
  pub locked : Bool
  pub unheld : ℕ
  pub pcs : List Pc

-- What a goroutine does next, where it has a choice: calls, answers of redis, the end of the time.
pub data Move : Type 0 where
  go redis_ok redis_err time_out : Move

abbrev pub lock_stat : ℕ
lock_stat = 1

abbrev pub unlock_stat : ℕ
unlock_stat = 0

abbrev pub at : ℕ → Pc → RedisLock → RedisLock
at i pc r = record r { pcs = set r.pcs i pc }

-- The next access of the goroutine at a place; where the mutex is taken, it waits.
pub go_at : ℕ → Pc → RedisLock → RedisLock
go_at i outside r = at i waiting r
go_at i waiting r = if r.locked then r else record (at i entered r) { locked = true }
go_at i entered r = record (at i selecting r) { is_lock = lock_stat }
go_at i selecting r = r
go_at i failing r = record (at i clearing r) { locked = false }
go_at i clearing r = record (at i outside r) { is_lock = unlock_stat }
go_at i holding r =
    if r.is_lock == lock_stat
    then at i unlocking r
    else record (at i outside r) { unheld = r.unheld + 1 }
go_at i unlocking r = record (at i storing r) { locked = false }
go_at i storing r = record (at i releasing r) { is_lock = unlock_stat }
go_at i releasing r = at i outside r

abbrev pub is_selecting : Pc → Bool
is_selecting selecting = true
is_selecting outside = false
is_selecting waiting = false
is_selecting entered = false
is_selecting failing = false
is_selecting clearing = false
is_selecting holding = false
is_selecting unlocking = false
is_selecting storing = false
is_selecting releasing = false

-- The `select` of `Lock`.
pub select_at : Pc → ℕ → Pc → RedisLock → RedisLock
select_at next i pc r = if is_selecting pc then at i next r else r

pub move_at : Move → ℕ → Pc → RedisLock → RedisLock
unfolding go_at select_at
move_at go i pc r = go_at i pc r
move_at redis_ok i pc r = select_at holding i pc r
move_at redis_err i pc r = select_at failing i pc r
move_at time_out i pc r = select_at failing i pc r

pub move : Move → ℕ → RedisLock → RedisLock
unfolding move_at
move m i r = elim (get_elem? r.pcs i) [ none ↦ r | some pc ↦ move_at m i pc r ]

pub moves : List (Move × ℕ) → RedisLock → RedisLock
unfolding move
moves [] r = r
moves ((m, i) ∷ ms) r = moves ms (move m i r)

pub new_lock : List Pc → RedisLock
new_lock pcs = record { is_lock = unlock_stat; locked = false; unheld = 0; pcs = pcs }
