-- ===== src/Lock/Options.antt =====
-- The bounds that `NewRedsync` puts on its configuration.
use j7f.Base.{ℕ, ◌≡◌, ◌≤◌, ◌*◌, ◌&&◌, ap, ◌∙◌, leb, Bool, [], ◌∷◌, arith, if◌then◌else◌, ltb}
use j7f.Base.Int.{pos, ◌*ℤ◌, wrap_i64}
use j7f.Lock.{
  RedisLockConfig, set_expiry, set_tries, set_retry_delay, set_drift_factor, or_default,
  new_redsync,
}

-- A setting within the bounds stays, and another becomes the other value.
abbrev pub bounded : ℕ → ℕ → ℕ → ℕ
bounded most other n = if ltb 0 n && leb n most then n else other

or_default_lem :
    (most other n : ℕ) → or_default (pos most) (pos other) (pos n) ≡ pos (bounded most other n)
unfolding or_default
or_default_lem most other n = ground arith

bounded_le : (most other n : ℕ) → other ≤ most → bounded most other n ≤ most
bounded_le most other n h = ground arith

scaled : (n : ℕ) → n ≤ 50 → wrap_i64 (pos n *ℤ pos 1000000) ≡ pos (n * 1000000)
scaled n h = ground arith

-- For settings that are not negative: the milliseconds for which `Lock` tries are MaxTryLock
-- within 1 to 200, or 50; the lock of redis expires after one second; the tries are those
-- within 1 to 3, or 3, and the delay between them is RetryDelay milliseconds, not seconds,
-- within 1 to 50, or 50; a drift factor is set where it is not zero.
pub new_redsync_lem :
    {Float : Type 0} (is_zero : Float → Bool) (c : RedisLockConfig Float)
    (expiry tries delay ttl : ℕ)
    → c.expiry ≡ pos expiry
    → c.tries ≡ pos tries
    → c.retry_delay ≡ pos delay
    → c.max_try_lock ≡ pos ttl
    → ((new_redsync is_zero c).1 ≡ pos (bounded 200 50 ttl))
      × ((new_redsync is_zero c).2
          ≡ set_expiry (pos 1000000000)
            ∷ set_tries (pos (bounded 3 3 tries))
            ∷ set_retry_delay (pos (bounded 50 50 delay * 1000000))
            ∷ (if is_zero c.drift_factor then [] else set_drift_factor c.drift_factor ∷ []))
unfolding new_redsync
new_redsync_lem is_zero c expiry tries delay ttl a b d e =
    let x : or_default (pos 1) (pos 1) c.expiry ≡ pos 1 =
      ap (or_default (pos 1) (pos 1)) a ∙ (or_default_lem 1 1 expiry ∙ ground arith) in
    let t = ap (or_default (pos 3) (pos 3)) b ∙ or_default_lem 3 3 tries in
    let y = ap (or_default (pos 50) (pos 50)) d ∙ or_default_lem 50 50 delay in
    let l = ap (or_default (pos 200) (pos 50)) e ∙ or_default_lem 200 50 ttl in
    let late = scaled (bounded 50 50 delay) (bounded_le 50 50 delay (omega arith)) in
    let times : wrap_i64 (or_default (pos 1) (pos 1) c.expiry *ℤ pos 1000000000) ≡ pos 1000000000 =
      ap (λ z. wrap_i64 (z *ℤ pos 1000000000)) x in
    let waits = ap (λ z. wrap_i64 (z *ℤ pos 1000000)) y ∙ late in (l, cc (times, t, waits))
