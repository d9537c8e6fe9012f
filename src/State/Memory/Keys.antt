-- ===== src/State/Memory/Keys.antt =====
-- Idempotency keys and locks: who holds one, and for how long.
use dbbridge.Base.{String, ◌≡◌, refl, ap, ◌≢◌, true, false, some, List, [], ◌∷◌, ok, arith, eq_iff}
use dbbridge.Base.Int.{ℤ, ◌+ℤ◌, ◌<ℤ◌, ◌≤ℤ◌}
use dbbridge.Base.Assoc.{lookup, lookup-insert, lookup-erase}
use dbbridge.State.Memory.{
  Memory, full_key, acquire_idempotency, release_idempotency, refresh_idempotency, try_lock,
}

-- The key is `query`'s until `until` at least.
pub record Holds (db_id key query : String) (until : ℤ) (m : Memory) : Type 0 where
  expiry : ℤ
  pub holder : lookup (full_key db_id key) m.idempotency ≡ some query
  expires : lookup (full_key db_id key) m.idemp_expires ≡ some expiry
  lasts : until ≤ℤ expiry

-- What another submission or a rollback does with a key, at its time.
pub data KeyCall : Type 0 where
  acquires : ℤ → String → ℤ → KeyCall
  releases : String → KeyCall
  refreshes : ℤ → String → ℤ → KeyCall

module _ (db_id key : String) where
  abbrev pub call_key : KeyCall → Memory → Memory
  call_key (acquires now q ttl) m = (acquire_idempotency now db_id key q ttl m).1
  call_key (releases q) m = (release_idempotency db_id key q m).1
  call_key (refreshes now q ttl) m = (refresh_idempotency now db_id key q ttl m).1

  abbrev pub call_keys : List KeyCall → Memory → Memory
  call_keys [] m = m
  call_keys (c ∷ cs) m = call_keys cs (call_key c m)

-- A call by another query, before the key expires.
abbrev pub IsForeign : String → ℤ → KeyCall → Type 0
IsForeign query until (acquires now q ttl) = (q ≢ query) × (now <ℤ until)
IsForeign query until (releases q) = q ≢ query
IsForeign query until (refreshes now q ttl) = q ≢ query

abbrev pub AllForeign : String → ℤ → List KeyCall → Type 0
AllForeign query until [] = Unit
AllForeign query until (c ∷ cs) = IsForeign query until c × AllForeign query until cs

acquire_idempotency-held :
    (now : ℤ) (db_id key query q : String) (ttl until : ℤ) (m : Memory)
    → Holds db_id key query until m
    → now <ℤ until
    → acquire_idempotency now db_id key q ttl m ≡ (ok (query, false), m)
unfolding acquire_idempotency
acquire_idempotency-held now db_id key query q ttl until m h t = ground arith

release_idempotency-other :
    (db_id key query q : String) (until : ℤ) (m : Memory)
    → q ≢ query
    → Holds db_id key query until m
    → release_idempotency db_id key q m ≡ (ok tt, m)
unfolding release_idempotency
release_idempotency-other db_id key query q until m n h = ground (arith, eq_iff query q, h.holder)

refresh_idempotency-other :
    (now : ℤ) (db_id key query q : String) (ttl until : ℤ) (m : Memory)
    → q ≢ query
    → Holds db_id key query until m
    → refresh_idempotency now db_id key q ttl m ≡ (ok tt, m)
unfolding refresh_idempotency
refresh_idempotency-other now db_id key query q ttl until m n h =
    ground (arith, eq_iff query q, h.holder)

call_key-Holds :
    (db_id key query : String) (until : ℤ) (c : KeyCall) (m : Memory)
    → IsForeign query until c
    → Holds db_id key query until m
    → call_key db_id key c m ≡ m
call_key-Holds db_id key query until (acquires now q ttl) m f h =
    ap (λ r. r.1) (acquire_idempotency-held now db_id key query q ttl until m h f.1)
call_key-Holds db_id key query until (releases q) m f h =
    ap (λ r. r.1) (release_idempotency-other db_id key query q until m f h)
call_key-Holds db_id key query until (refreshes now q ttl) m f h =
    ap (λ r. r.1) (refresh_idempotency-other now db_id key query q ttl until m f h)

call_keys-Holds :
    (db_id key query : String) (until : ℤ) (cs : List KeyCall) (m : Memory)
    → AllForeign query until cs
    → Holds db_id key query until m
    → call_keys db_id key cs m ≡ m
call_keys-Holds db_id key query until [] m f h = refl
call_keys-Holds db_id key query until (c ∷ cs) m f h =
    rw (call_key-Holds db_id key query until c m f.0 h)
      (call_keys-Holds db_id key query until cs m f.1 h)

acquire_idempotency-Holds :
    (now : ℤ) (db_id key query : String) (ttl : ℤ) (m m' : Memory)
    → acquire_idempotency now db_id key query ttl m ≡ (ok (query, true), m')
    → Holds db_id key query (now +ℤ ttl) m'
unfolding acquire_idempotency
acquire_idempotency-Holds now db_id key query ttl m m' e = record {
  expiry = now +ℤ ttl;
  holder = ground (
    arith,
    lookup-insert (full_key db_id key) (full_key db_id key) query m.idempotency,
    eq_iff (full_key db_id key) (full_key db_id key),
  );
  expires = ground (
    arith,
    lookup-insert (full_key db_id key) (full_key db_id key) (now +ℤ ttl) m.idemp_expires,
    eq_iff (full_key db_id key) (full_key db_id key),
  );
  lasts = omega arith;
}

-- Once a query has acquired a key, no acquisition, rollback or renewal of other queries takes
-- the key from it before the TTL is over: the next submission with that key is still told of it.
pub acquire_idempotency-call_keys :
    (now : ℤ) (db_id key query : String) (ttl : ℤ) (m m' : Memory) (cs : List KeyCall) (later : ℤ)
    (q : String) (ttl' : ℤ)
    → acquire_idempotency now db_id key query ttl m ≡ (ok (query, true), m')
    → AllForeign query (now +ℤ ttl) cs
    → later <ℤ now +ℤ ttl
    → acquire_idempotency later db_id key q ttl' (call_keys db_id key cs m')
      ≡ (ok (query, false), m')
acquire_idempotency-call_keys now db_id key query ttl m m' cs later q ttl' e f t =
    let h = acquire_idempotency-Holds now db_id key query ttl m m' e in
    rw (call_keys-Holds db_id key query (now +ℤ ttl) cs m' f h)
      (acquire_idempotency-held later db_id key query q ttl' (now +ℤ ttl) m' h t)

acquire_idempotency-released :
    (later : ℤ) (db_id key query q : String) (ttl : ℤ) (m : Memory)
    → lookup (full_key db_id key) m.idempotency ≡ some query
    → (acquire_idempotency later db_id key q ttl (release_idempotency db_id key query m).1).0
      ≡ ok (q, true)
unfolding acquire_idempotency release_idempotency
acquire_idempotency-released later db_id key query q ttl m h = ground (
  arith,
  eq_iff query query,
  eq_iff (full_key db_id key) (full_key db_id key),
  lookup-erase (full_key db_id key) (full_key db_id key) m.idemp_expires,
)

release_idempotency-elsewhere :
    (now : ℤ) (db_id key query : String) (ttl : ℤ) (m m' : Memory) (k : String)
    → acquire_idempotency now db_id key query ttl m ≡ (ok (query, true), m')
    → lookup (full_key db_id key) m'.idempotency ≡ some query
    → full_key db_id key ≢ k
    → let m'' = (release_idempotency db_id key query m').1 in
      (lookup k m''.idempotency ≡ lookup k m.idempotency)
      × (lookup k m''.idemp_expires ≡ lookup k m.idemp_expires)
unfolding acquire_idempotency release_idempotency
release_idempotency-elsewhere now db_id key query ttl m m' k e h n = ground (
  arith,
  eq_iff query query,
  eq_iff (full_key db_id key) k,
  lookup-erase (full_key db_id key) k m'.idempotency,
  lookup-erase (full_key db_id key) k m'.idemp_expires,
  lookup-insert (full_key db_id key) k query m.idempotency,
  lookup-insert (full_key db_id key) k (now +ℤ ttl) m.idemp_expires,
)

-- A rollback undoes an acquisition: any query can acquire the key at once, and every other key
-- of the store has the holder and the expiry that it had before the acquisition.
pub release_idempotency-acquire_idempotency :
    (now : ℤ) (db_id key query : String) (ttl : ℤ) (m m' : Memory)
    → acquire_idempotency now db_id key query ttl m ≡ (ok (query, true), m')
    → let m'' = (release_idempotency db_id key query m').1 in
      ((later : ℤ) (q : String) (ttl' : ℤ)
        → (acquire_idempotency later db_id key q ttl' m'').0 ≡ ok (q, true))
      × ((k : String)
          → full_key db_id key ≢ k
          → (lookup k m''.idempotency ≡ lookup k m.idempotency)
            × (lookup k m''.idemp_expires ≡ lookup k m.idemp_expires))
release_idempotency-acquire_idempotency now db_id key query ttl m m' e =
    let h = acquire_idempotency-Holds now db_id key query ttl m m' e in
    (
      λ later q ttl'. acquire_idempotency-released later db_id key query q ttl' m' h.holder,
      λ k n. release_idempotency-elsewhere now db_id key query ttl m m' k e h.holder n,
    )

-- A lock is exclusive until it expires: whoever asks for it before then is refused, and asking
-- changes nothing.
pub try_lock-try_lock :
    (now : ℤ) (name : String) (ttl : ℤ) (m m' : Memory) (later ttl' : ℤ)
    → try_lock now name ttl m ≡ (ok true, m')
    → later <ℤ now +ℤ ttl
    → try_lock later name ttl' m' ≡ (ok false, m')
unfolding try_lock
try_lock-try_lock now name ttl m m' later ttl' e t =
    ground (arith, lookup-insert name name (now +ℤ ttl) m.locks, eq_iff name name)
