-- ===== src/Ratelimit/Budgets.antt =====
-- Whose budget a request counts against.
use dbbridge.Base.{String, Option, none, some, if◌then◌else◌}
use dbbridge.Base.Int.{ℤ, ltb_ℤ, ◌-ℤ◌}
use dbbridge.Base.Assoc.{Assoc, lookup}
use dbbridge.Ratelimit.{idle_eviction, Entry, Limiter}

module _ {L : Type 0} where
  -- The entry that is left after a purge.
  abbrev pub kept : ℤ → Option (Entry L) → Option (Entry L)
  kept now none = none
  kept now (some e) = if ltb_ℤ idle_eviction (now -ℤ e.last_use) then none else some e

  abbrev pub after_purge : ℤ → Limiter L → String → Option (Entry L)
  after_purge now l key =
      if ltb_ℤ (now -ℤ l.last_purge) idle_eviction
      then lookup key l.entries
      else kept now (lookup key l.entries)
