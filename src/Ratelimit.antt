-- ===== src/Ratelimit.antt =====
-- internal/ratelimit/ratelimit.go: one bucket for each caller. The buckets are those of a library: a new
-- one, and `Allow` at a time.
pub mod Budgets
use dbbridge.Base.{
  String, ◌==◌, Bool, true, false, not, Option, none, some, List, [], ◌∷◌, if◌then◌else◌,
}
use dbbridge.Base.Int.{ℤ, pos, ltb_ℤ, ◌-ℤ◌}
use dbbridge.Base.Assoc.{Assoc, lookup, insert}

-- 10 minutes
abbrev pub idle_eviction : ℤ
idle_eviction = pos 600_000_000_000

pub record Entry (L : Type 0) : Type 0 where
  pub limiter : L
  pub last_use : ℤ

pub record Limiter (L : Type 0) : Type 0 where
  pub entries : Assoc (Entry L)
  pub last_purge : ℤ

-- The loop of `purgeLocked`.
unfoldable pub drop_idle : {L : Type 0} → ℤ → Assoc (Entry L) → Assoc (Entry L)
drop_idle now [] = []
drop_idle now ((key, e) ∷ es) =
    let rest = drop_idle now es in
    if ltb_ℤ idle_eviction (now -ℤ e.last_use) then rest else (key, e) ∷ rest

unfoldable pub purge : {L : Type 0} → ℤ → Limiter L → Limiter L
purge now l =
    if ltb_ℤ (now -ℤ l.last_purge) idle_eviction
    then l
    else record { entries = drop_idle now l.entries; last_purge = now }

module _ {L : Type 0} (new_bucket : L) (take : ℤ → L → Bool × L) where
  abbrev pub bucket_of : Option (Entry L) → L
  bucket_of none = new_bucket
  bucket_of (some e) = e.limiter

  -- `Allow` of a limiter that is there.
  unfoldable pub allow_key : ℤ → String → Limiter L → Bool × Limiter L
  allow_key now key l =
      let l1 = purge now l in
      let (allowed, limiter) = take now (bucket_of (lookup key l1.entries)) in
      (
        allowed,
        record l1 {
          entries = insert key (record { limiter = limiter; last_use = now }) l1.entries;
        },
      )

  -- A limiter that is not there allows everything.
  unfoldable pub allow : ℤ → String → Option (Limiter L) → Bool × Option (Limiter L)
  allow now key none = (true, none)
  allow now key (some l) = let (allowed, l') = allow_key now key l in (allowed, some l')
