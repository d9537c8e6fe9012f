-- ===== src/Manager/Garbage/Collected.antt =====
-- What garbage collection does with one query, over the store in memory.
use dbbridge.Base.{
  String, ◌≡◌, refl, sym, subst, ◌∙◌, ◌≢◌, ◌⊎◌, inl, inr, true, false, Option, none, some, ok,
  arith, Option-cases, eq_iff, Bool-cases, test_of_ne,
}
use dbbridge.Base.Assoc.{lookup, lookup-insert, lookup-erase, Entries-lookup}
use dbbridge.Base.Int.{pos}
use dbbridge.Domain.{
  QueryRecord, ResultRef, QueryState, expired, ◌=s=◌, =s=_iff, is_terminal, can_transition_to,
}
use dbbridge.State.Memory.{
  Memory, memory_store, full_key, put_query, update_query, delete_query, release_idempotency,
}
use dbbridge.State.Memory.Records.{IsConsistent, IsKeyed, get_query-stored}
use dbbridge.Manager.Defs.{Manager, Sys}
use dbbridge.Manager.Watchers.{notify_watchers}
use dbbridge.Manager.Submit.{ResultStore, scoped_idempotency_key}
use dbbridge.Manager.Submit.Claims.{memory-release_frees}
use dbbridge.Manager.Reaper.Verdicts.{stored}
use dbbridge.Manager.Garbage.{
  expired_event, Results, drop_result, delete_metadata, remove_expired, expire_query, collect_query,
}

-- Whether the query holds its own idempotency key.
abbrev pub HoldsKey : QueryRecord → String → Sys Memory → Type 0
HoldsKey rec id sys =
    lookup (full_key rec.database_id (scoped_idempotency_key rec.subject rec.idempotency_key))
      sys.store.idempotency
    ≡ some id

abbrev pub IsKept : QueryRecord → String → Sys Memory → Type 0
IsKept rec id sys =
    (kept : QueryRecord) × (stored id sys ≡ some kept)
    × (kept.state ≡ expired)
    × (kept.result ≡ rec.result)

abbrev pub IsRemoved : QueryRecord → String → Sys Memory → Type 0
IsRemoved rec id sys = (stored id sys ≡ none) × (rec.idempotency_key ≢ "" → ¬ (HoldsKey rec id sys))

delete_metadata-queries :
    (rec : QueryRecord) (id : String) (s : Memory)
    → lookup id (delete_metadata memory_store rec id s).queries ≡ none
unfolding delete_metadata delete_query release_idempotency
delete_metadata-queries rec id s = ground (arith, eq_iff id id, lookup-erase id id s.queries)

delete_metadata-key :
    (rec : QueryRecord) (id : String) (m : Manager) (s : Memory)
    → rec.idempotency_key ≢ ""
    → ¬ (HoldsKey rec id (record { manager = m; store = delete_metadata memory_store rec id s }))
unfolding delete_metadata delete_query
delete_metadata-key rec id m s n h =
    let key = scoped_idempotency_key rec.subject rec.idempotency_key in
    memory-release_frees rec.database_id key id s
      (rw (test_of_ne rec.idempotency_key "" n, delete_metadata, delete_query) at h)

remove_expired-IsKept :
    (results : Results) (rec rec' : QueryRecord) (id : String) (sys : Sys Memory)
    → IsKept rec id sys
    → rec'.result ≡ rec.result
    → drop_result results rec.result ≡ false
    → IsKept rec id (remove_expired memory_store results rec' id sys)
unfolding remove_expired
remove_expired-IsKept results rec rec' id sys k e d = rw (e, d) k

remove_expired-IsRemoved :
    (results : Results) (rec : QueryRecord) (id : String) (sys : Sys Memory)
    → drop_result results rec.result ≡ true
    → IsRemoved rec id (remove_expired memory_store results rec id sys)
unfolding remove_expired
remove_expired-IsRemoved results rec id sys d =
    rw d
      (delete_metadata-queries rec id sys.store, delete_metadata-key rec id sys.manager sys.store)

abbrev Treated : Results → QueryRecord → String → Sys Memory → Type 0
Treated results rec id sys' =
    (drop_result results rec.result ≡ false) × IsKept rec id sys'
    ⊎ (drop_result results rec.result ≡ true) × IsRemoved rec id sys'

remove_expired-Treated :
    (results : Results) (rec : QueryRecord) (id : String) (sys : Sys Memory)
    → IsKept rec id sys
    → Treated results rec id (remove_expired memory_store results rec id sys)
remove_expired-Treated results rec id sys k = elim (Bool-cases (drop_result results rec.result)) [
  | inl d ↦ inr (d, remove_expired-IsRemoved results rec id sys d)
  | inr d ↦ inl (d, remove_expired-IsKept results rec rec id sys k refl d)
]

-- The write of the state EXPIRED.
update_query-expired :
    (rec cur : QueryRecord) (id : String) (s : Memory)
    → rec.id ≡ id
    → lookup id s.queries ≡ some cur
    → (s1 : Memory) × (update_query rec s ≡ (ok tt, s1))
      × (lookup id s1.queries ≡ some (record rec { lease_deadline = pos 0 }))
unfolding update_query
update_query-expired rec cur id s e c = (
  (put_query rec s).1,
  unfold put_query in ground arith,
  unfold put_query in
      ground (
        arith,
        eq_iff rec.id id,
        lookup-insert rec.id id (record rec { lease_deadline = pos 0 }) s.queries,
      ),
)

expire_query-Treated :
    (results : Results) (rec cur : QueryRecord) (id : String) (sys : Sys Memory)
    → rec.id ≡ id
    → stored id sys ≡ some cur
    → can_transition_to rec.state expired ≡ true
    → Treated results rec id (expire_query memory_store results rec id sys)
unfolding expire_query
expire_query-Treated results rec cur id sys e c t =
    let rec' : QueryRecord = record rec { state = expired } in
    let (s1, w, l) = update_query-expired rec' cur id sys.store e c in
    let sys1 : Sys Memory = record {
      manager = notify_watchers (expired_event id) sys.manager;
      store = s1;
    } in
    let done : expire_query memory_store results rec id sys
        ≡ remove_expired memory_store results rec' id sys1 =
      ground (arith, w) in
    subst (Treated results rec id) (sym done) (
      remove_expired-Treated results rec' id sys1
        (record rec' { lease_deadline = pos 0 }, l, refl, refl))

-- Exactly the terminal states may become EXPIRED.
is_terminal-can_transition_to_expired :
    (s : QueryState) → can_transition_to s expired ≡ is_terminal s
unfolding can_transition_to is_terminal
is_terminal-can_transition_to_expired s = ground arith

-- There is no result to delete, or it was deleted.
abbrev pub IsGone : Results → Option ResultRef → Type 0
IsGone results result =
    (result ≡ none)
    ⊎ ((ref : ResultRef) × (backend : ResultStore) × (result ≡ some ref)
        × (lookup ref.backend results.stores ≡ some backend)
        × (results.delete ref ≡ true))

-- The result is there still: its backend is unknown, or did not delete it.
abbrev pub IsLeft : Results → Option ResultRef → Type 0
IsLeft results result =
    (ref : ResultRef) × (result ≡ some ref)
    × ((lookup ref.backend results.stores ≡ none) ⊎ (results.delete ref ≡ false))

drop_result_lem :
    (results : Results) (result : Option ResultRef)
    → (drop_result results result ≡ false → IsLeft results result)
      × (drop_result results result ≡ true → IsGone results result)
unfolding drop_result
drop_result_lem results none = (λ h. cc, λ h. inl refl)
drop_result_lem results (some ref) = elim (Option-cases (lookup ref.backend results.stores)) [
  | inl a ↦ (λ h. (ref, refl, inl a), λ h. absurd (ground (arith, h)))
  | inr (backend, a) ↦ (
    λ h. (ref, refl, inr (ground (arith, h, a))),
    λ h. inr (ref, backend, refl, a, ground (arith, h, a)),
  )
]

-- Garbage collection leaves a query that is not terminal alone, with the whole system. Of a terminal
-- one it deletes the result first: while that fails, or the backend of the result is unknown, the
-- record stays, EXPIRED and with its reference, so that the next pass tries again; else the record is
-- gone and its idempotency key does not point at it any more. The store holds records that are stored under their own ids.
pub collect_query-IsRemoved :
    (results : Results) (sys : Sys Memory) (id : String) (rec : QueryRecord)
    → IsConsistent sys.store
    → stored id sys ≡ some rec
    → let sys' = collect_query memory_store results id sys in
      ((is_terminal rec.state ≡ false) × (sys' ≡ sys))
      ⊎ ((is_terminal rec.state ≡ true) × IsLeft results rec.result × IsKept rec id sys')
      ⊎ ((is_terminal rec.state ≡ true) × IsGone results rec.result × IsRemoved rec id sys')
unfolding collect_query
collect_query-IsRemoved results sys id rec c e =
    let (l, g) = get_query-stored id rec sys.store e in
    let k = Entries-lookup IsKeyed id rec sys.store.queries c.keyed e in
    let rec1 : QueryRecord = record rec { lease_deadline = l } in
    elim (Bool-cases (rec.state =s= expired)) [
      | inl t ↦
          let at = (=s=_iff rec.state expired).0 t in
          let done : collect_query memory_store results id sys
              ≡ remove_expired memory_store results rec1 id sys =
            ground (arith, g, t) in
          inr (
            Treated-both (collect_query memory_store results id sys)
              (unfold is_terminal in ground (arith, at))
              (subst (Treated results rec id) (sym done)
                (remove_expired-Treated results rec1 id sys (rec, e, at, refl))))
      | inr t ↦
          let done : collect_query memory_store results id sys
              ≡ expire_query memory_store results rec1 id sys =
            ground (arith, g, t) in
          elim (Bool-cases (can_transition_to rec.state expired)) [
            | inl a ↦ inr (
                Treated-both (collect_query memory_store results id sys)
                  (ground (arith, a, is_terminal-can_transition_to_expired rec.state))
                  (subst (Treated results rec id) (sym done)
                    (expire_query-Treated results rec1 rec id sys k.0 e a)))
            | inr a ↦ inl (
              ground (arith, a, is_terminal-can_transition_to_expired rec.state),
              done ∙ (unfold expire_query in rw a refl),
            )
          ]
    ]
  where
    Treated-both :
        (sys' : Sys Memory)
        → is_terminal rec.state ≡ true
        → Treated results rec id sys'
        → ((is_terminal rec.state ≡ true) × IsLeft results rec.result × IsKept rec id sys')
          ⊎ ((is_terminal rec.state ≡ true) × IsGone results rec.result × IsRemoved rec id sys')
    Treated-both sys' t (inl d) = inl (t, (drop_result_lem results rec.result).0 d.0, d.1)
    Treated-both sys' t (inr d) = inr (t, (drop_result_lem results rec.result).1 d.0, d.1)
