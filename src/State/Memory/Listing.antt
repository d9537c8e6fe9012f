-- ===== src/State/Memory/Listing.antt =====
-- The listings that drain, the reaper and garbage collection rest on.
use dbbridge.Base.{
  String, ◌==◌, ◌≡◌, refl, sym, subst, ◌↔◌, ◌⊎◌, Bool, true, false, Option, none, some, List, [],
  ◌∷◌, ok, arith, eq_iff, if◌then◌else◌, Bool-cases, inl, inr, Member, select, length, Result, err,
}
use dbbridge.Base.Int.{ℤ, ◌+ℤ◌, ◌<ℤ◌, is_zero}
use dbbridge.Base.Assoc.{Assoc, lookup, values, IsUnique, Entries, Entries-lookup}
use dbbridge.Domain.{Error, QueryRecord, is_terminal}
use dbbridge.State.Memory.Records.{IsConsistent, IsKeyed}
use dbbridge.State.Memory.{
  Memory, ids, is_in_flight, is_owned, is_expired, is_stale, lease_over, fallback_ttl,
  count_in_flight, list_by_instance, list_expired_queries, list_stale_queries,
}

length-ids : (qs : List QueryRecord) → length (ids qs) ≡ length qs
unfolding ids
length-ids [] = refl
length-ids (q ∷ qs) = omega (arith, length-ids qs)

is_in_flight-is_owned : (id : String) (q : QueryRecord) → is_in_flight id q ≡ is_owned id q
unfolding is_in_flight is_owned is_terminal
is_in_flight-is_owned id q = ground arith

select-ext :
    (p r : QueryRecord → Bool) (qs : List QueryRecord)
    → ((q : QueryRecord) → p q ≡ r q)
    → select p qs ≡ select r qs
select-ext p r [] h = refl
select-ext p r (q ∷ qs) h = rw (h q, select-ext p r qs h)

-- `CountInFlight` counts PENDING and RUNNING and `ListByInstance` lists what is not terminal;
-- they agree: the count is the length of the list.
pub count_in_flight-list_by_instance :
    (id : String) (m : Memory)
    → (owned : List String) × (list_by_instance id m ≡ ok owned)
      × (count_in_flight id m ≡ ok (length owned))
unfolding count_in_flight list_by_instance
count_in_flight-list_by_instance id m = (
  ids (select (is_owned id) (values m.queries)),
  refl,
  rw (
    select-ext (is_in_flight id) (is_owned id) (values m.queries) (is_in_flight-is_owned id),
    length-ids (select (is_owned id) (values m.queries)),
  ),
)

module _ (p : QueryRecord → Bool) (id : String) where
  found_of_listed :
      (qs : Assoc QueryRecord)
      → IsUnique qs
      → Entries IsKeyed qs
      → Member id (ids (select p (values qs)))
      → (rec : QueryRecord) × (lookup id qs ≡ some rec) × (p rec ≡ true)
  unfolding ids lookup
  found_of_listed [] u k h = absurd h
  found_of_listed ((j, q) ∷ qs) u k h = elim (Bool-cases (p q)) [
    | inl t ↦ elim (listed_cons (rw t at h)) [
      | inl e ↦ (q, ground (arith, eq_iff j id, k.0), t)
      | inr r ↦ later u.0 (found_of_listed qs u.1 k.1 r)
    ]
    | inr t ↦ later u.0 (found_of_listed qs u.1 k.1 (rw t at h))
  ]
    where
      listed_cons :
          Member id (ids (q ∷ select p (values qs)))
          → (id ≡ q.id) ⊎ Member id (ids (select p (values qs)))
      listed_cons x = x

      later :
          lookup j qs ≡ none
          → (rec : QueryRecord) × (lookup id qs ≡ some rec) × (p rec ≡ true)
          → (rec : QueryRecord) × (lookup id ((j, q) ∷ qs) ≡ some rec) × (p rec ≡ true)
      later n (rec, e, t) = (rec, ground (arith, eq_iff j id), t)

  listed_of_found :
      (qs : Assoc QueryRecord) (rec : QueryRecord)
      → Entries IsKeyed qs
      → lookup id qs ≡ some rec
      → p rec ≡ true
      → Member id (ids (select p (values qs)))
  unfolding ids lookup
  listed_of_found [] rec k e t = cc
  listed_of_found ((j, q) ∷ qs) rec k e t = elim (Bool-cases (j == id)) [
    | inl h ↦ ground (arith, eq_iff j id)
    | inr h ↦ ground (arith, listed_of_found qs rec k.1 (rw h at e) t)
  ]

  listed_iff :
      (m : Memory)
      → IsConsistent m
      → Member id (ids (select p (values m.queries)))
        ↔ ((rec : QueryRecord) × (lookup id m.queries ≡ some rec) × (p rec ≡ true))
  listed_iff m c = (
    found_of_listed m.queries c.unique c.keyed,
    λ f. listed_of_found m.queries f.0 c.keyed f.1 f.2,
  )

abbrev pub Lists : String → Result Error (List String) → Type 0
Lists id (ok found) = Member id found
Lists id (err e) = ⊥

-- `FinishedAt` plus the retention, or 24 hours where no retention is set.
abbrev pub retained_until : QueryRecord → ℤ
retained_until q =
    q.finished_at +ℤ (if is_zero q.options.result_ttl then fallback_ttl else q.options.result_ttl)

is_expired_iff :
    (now : ℤ) (q : QueryRecord)
    → (is_expired now q ≡ true)
      ↔ ((is_terminal q.state ≡ true) × (is_zero q.finished_at ≡ false) × (retained_until q <ℤ now))
unfolding is_expired
is_expired_iff now q = ground arith

is_stale_iff :
    (now : ℤ) (leases : Assoc ℤ) (q : QueryRecord)
    → (is_stale now leases q ≡ true)
      ↔ ((is_terminal q.state ≡ false) × (lease_over now (lookup q.id leases) ≡ true))
unfolding is_stale is_terminal
is_stale_iff now leases q = ground arith

lease_over_iff :
    (now : ℤ) (l : Option ℤ) → (lease_over now l ≡ true) ↔ ((exp : ℤ) → l ≡ some exp → exp <ℤ now)
unfolding lease_over
lease_over_iff now none = (λ t exp e. cc, λ f. refl)
lease_over_iff now (some x) = (λ t exp e. ground arith, λ f. ground (arith, f x refl))

module _ (now : ℤ) (id : String) (m : Memory) (c : IsConsistent m) where
  -- `ListExpiredQueries` lists exactly the ids of the terminal records that have a finishing
  -- time whose retention is over, in a store that holds each record once and under its own id.
  pub list_expired_queries_iff : Lists id (list_expired_queries now m) ↔ (
      (rec : QueryRecord) × (lookup id m.queries ≡ some rec)
      × (is_terminal rec.state ≡ true)
      × (is_zero rec.finished_at ≡ false)
      × (retained_until rec <ℤ now))
  unfolding list_expired_queries
  list_expired_queries_iff =
      let i = listed_iff (is_expired now) id m c in
      (
        λ l.
            let (rec, e, t) = i.0 l in
            let (a, b, d) = (is_expired_iff now rec).0 t in (rec, e, a, b, d),
        λ f. i.1 (f.0, f.1, (is_expired_iff now f.0).1 (f.2, f.3, f.4)),
      )

  keyed : (rec : QueryRecord) → lookup id m.queries ≡ some rec → rec.id ≡ id
  keyed rec e = (Entries-lookup IsKeyed id rec m.queries c.keyed e).0

  -- `ListStaleQueries` lists exactly the ids of the records that are not terminal and have no
  -- lease, or a lease that is over, in a store that holds each record once and under its own id.
  pub list_stale_queries_iff : Lists id (list_stale_queries now m) ↔ (
      (rec : QueryRecord) × (lookup id m.queries ≡ some rec)
      × (is_terminal rec.state ≡ false)
      × ((exp : ℤ) → lookup id m.leases ≡ some exp → exp <ℤ now))
  unfolding list_stale_queries
  list_stale_queries_iff =
      let i = listed_iff (is_stale now m.leases) id m c in
      (
        λ l.
            let (rec, e, t) = i.0 l in
            let s = (is_stale_iff now m.leases rec).0 t in
            (
              rec,
              e,
              s.0,
              (lease_over_iff now (lookup id m.leases)).0
                  (subst (λ j. lease_over now (lookup j m.leases) ≡ true) (keyed rec e) s.1),
            ),
        λ f. i.1 (
          f.0,
          f.1,
          (is_stale_iff now m.leases f.0).1 (
            f.2,
            subst (λ j. lease_over now (lookup j m.leases) ≡ true) (sym (keyed f.0 f.1))
                ((lease_over_iff now (lookup id m.leases)).1 f.3),
          ),
        ),
      )

-- No query is listed both as expired and as stale, at whatever two times, if the store holds each
-- record once and under its own id.
pub list_stale_queries-list_expired_queries :
    (now later : ℤ) (id : String) (m : Memory)
    → IsConsistent m
    → Lists id (list_expired_queries now m)
    → ¬ (Lists id (list_stale_queries later m))
list_stale_queries-list_expired_queries now later id m c l k =
    let (rec, e, t, _, _) = (list_expired_queries_iff now id m c).0 l in
    let (q, d, s, _) = (list_stale_queries_iff later id m c).0 k in ground arith
