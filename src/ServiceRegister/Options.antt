-- ===== src/ServiceRegister/Options.antt =====
-- The times of a lease.
use j7f.Base.{◌<◌, ◌^◌, ◌≡◌, ◌*◌, arith, true, if◌then◌else◌}
use j7f.Base.Int.{ℤ, pos, negsuc, pos_part, leb_ℤ, ltb_ℤ}
use j7f.ServiceRegister.{new_ttl_option, min_heart_beat_time}

-- For a heartbeat below 2 ^ 61 nanoseconds: it is at least the least one, the time to live is
-- longer than it, and each of the two is the given one where that is in order.
new_ttl_option_lem :
    (heartbeat ttl : ℤ)
    → pos_part heartbeat < 2 ^ 61
    → let o = new_ttl_option heartbeat ttl in
      (o.heartbeat
        ≡ (if leb_ℤ heartbeat min_heart_beat_time then min_heart_beat_time else heartbeat))
      × (leb_ℤ min_heart_beat_time o.heartbeat ≡ true)
      × (ltb_ℤ o.heartbeat o.ttl ≡ true)
      × (o.ttl ≡ (if leb_ℤ ttl o.heartbeat then pos (3 * pos_part o.heartbeat) else ttl))
unfolding new_ttl_option
new_ttl_option_lem (pos n) (pos m) h = ground arith
new_ttl_option_lem (pos n) (negsuc m) h = ground arith
new_ttl_option_lem (negsuc n) (pos m) h = ground arith
new_ttl_option_lem (negsuc n) (negsuc m) h = ground arith
