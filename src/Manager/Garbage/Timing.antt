-- ===== src/Manager/Garbage/Timing.antt =====
-- The durations of a pass of garbage collection.
use dbbridge.Base.{◌≤◌, ◌<◌, ◌≡◌, arith}
use dbbridge.Manager.Defs.{Manager}
use dbbridge.Manager.Garbage.{gc_interval, gc_period, gc_budget, gc_lock_ttl}

-- Whatever period is configured, a pass ends within the lock and the lock before the next tick;
-- at the default period of a minute the two are 45 and 50 seconds.
pub gc_budget-le-gc_lock_ttl :
    (m : Manager)
    → (gc_budget m ≤ gc_lock_ttl m)
      × (gc_lock_ttl m < gc_period m)
      × (gc_period m ≡ gc_interval
          → (gc_budget m ≡ 45_000_000_000) × (gc_lock_ttl m ≡ 50_000_000_000))
unfolding gc_budget gc_lock_ttl gc_period
gc_budget-le-gc_lock_ttl m = ground arith
