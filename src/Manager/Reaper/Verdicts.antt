-- ===== src/Manager/Reaper/Verdicts.antt =====
-- What a pass of the reaper does to the records of the in-memory store.
use dbbridge.Base.{
  String, ◌==◌, ◌≡◌, refl, sym, subst, ◌∙◌, ◌≢◌, ◌⊎◌, inl, inr, Bool, false, ◌||◌, Option, none,
  some, List, [], ◌∷◌, arith, eq_iff, if◌then◌else◌, Option-cases, Bool-cases,
}
use dbbridge.Base.Int.{ℤ, pos, ◌+ℤ◌, ◌-ℤ◌, ◌≤ℤ◌, ltb_ℤ}
use dbbridge.Base.Assoc.{lookup, has, lookup-insert, Entries-lookup}
use dbbridge.Domain.{QueryRecord, pending, running, is_terminal}
use dbbridge.State.Memory.{Memory, memory_store, update_query_if_state, list_stale_queries}
use dbbridge.State.Memory.Records.{
  IsConsistent, IsKeyed, update_if_state, perform-IsConsistent, get_query-stored, get_query-missing,
}
use dbbridge.Config.{Config}
use dbbridge.Manager.Defs.{Manager, Sys}
use dbbridge.Manager.Watchers.Frame.{SameAdmission, notify_watchers-SameAdmission}
use dbbridge.Manager.Reaper.{
  lost_record, lost_event, fail_owner_lost, reap_query, reap_all, reap_stale_owners,
}

abbrev pub stored : String → Sys Memory → Option QueryRecord
stored id sys = lookup id sys.store.queries

-- The record as the reaper leaves it.
abbrev pub reaped_record : ℤ → QueryRecord → QueryRecord
reaped_record now rec = record (lost_record now rec) { lease_deadline = pos 0 }

module _ (now : ℤ) (rec : QueryRecord) (l : ℤ) (sys : Sys Memory) where
  -- The conditional write goes through exactly for a record that is not terminal.
  pub stored-fail_owner_lost :
      (id : String)
      → lookup rec.id sys.store.queries ≡ some rec
      → stored id (fail_owner_lost memory_store now (record rec { lease_deadline = l }) sys) ≡ (
          if is_terminal rec.state
          then stored id sys
          else if rec.id == id
          then some (reaped_record now rec)
          else stored id sys)
  unfolding fail_owner_lost update_query_if_state is_terminal
  stored-fail_owner_lost id e =
      ground (arith, lookup-insert rec.id id (reaped_record now rec) sys.store.queries)

  pub fail_owner_lost-IsConsistent :
      IsConsistent sys.store
      → IsConsistent
          (fail_owner_lost memory_store now (record rec { lease_deadline = l }) sys).store
  unfolding fail_owner_lost
  fail_owner_lost-IsConsistent c = ground (
    arith,
    perform-IsConsistent
        (update_if_state (lost_record now (record rec { lease_deadline = l }))
          (pending ∷ running ∷ []))
        sys.store c,
  )

  pub fail_owner_lost-SameAdmission :
      SameAdmission sys.manager
        (fail_owner_lost memory_store now (record rec { lease_deadline = l }) sys).manager
  unfolding fail_owner_lost
  fail_owner_lost-SameAdmission = ground (
    arith,
    notify_watchers-SameAdmission (lost_event (record rec { lease_deadline = l })) sys.manager,
  )

-- One record before and after a pass: it is the same, or it was not terminal, belonged to another
-- instance, was not running here and was old enough, and is now FAILED with OWNER_LOST.
abbrev pub Verdict : ℤ → Manager → String → Option QueryRecord → Option QueryRecord → Type 0
Verdict now m id before after =
    (after ≡ before)
    ⊎ ((rec : QueryRecord) × (before ≡ some rec)
        × (is_terminal rec.state ≡ false)
        × (rec.owner_instance_id ≢ m.instance_id)
        × (lookup id m.active_reg ≡ none)
        × (m.cfg.heartbeat_ttl +ℤ m.cfg.heartbeat_ttl ≤ℤ now -ℤ rec.created_at)
        × (after ≡ some (reaped_record now rec)))

-- What one pass keeps.
record Kept (sys sys' : Sys Memory) : Type 0 where
  consistent : IsConsistent sys'.store
  admission : SameAdmission sys.manager sys'.manager

-- The guards of `reap_query` together.
abbrev is_spared : ℤ → String → QueryRecord → Sys Memory → Bool
is_spared now id rec sys =
    has (lookup id sys.manager.active_reg)
    || (rec.owner_instance_id == sys.manager.instance_id)
    || ltb_ℤ (now -ℤ rec.created_at)
        (sys.manager.cfg.heartbeat_ttl +ℤ sys.manager.cfg.heartbeat_ttl)

module _ (now : ℤ) (id : String) (sys : Sys Memory) (c : IsConsistent sys.store) where
  unchanged : Kept sys sys
  unchanged = record { consistent = c; admission = ground arith }

  reap_query-Verdict :
      (other : String)
      → Verdict now sys.manager other
          (stored other sys)
          (stored other (reap_query memory_store now id sys))
  unfolding reap_query
  reap_query-Verdict other = elim (Option-cases (stored id sys)) [
    | inl e ↦ inl (ground (arith, get_query-missing id sys.store e))
    | inr (rec, e) ↦
        let (l, g) = get_query-stored id rec sys.store e in
        let k = Entries-lookup IsKeyed id rec sys.store.queries c.keyed e in
        let r =
          stored-fail_owner_lost now rec l sys other
            (subst (λ j. lookup j sys.store.queries ≡ some rec) (sym k.0) e) in
        elim (Bool-cases (is_terminal rec.state)) [
          | inl t ↦ inl (ground arith)
          | inr t ↦ elim (Bool-cases (rec.id == other)) [
            | inr n ↦ inl (ground arith)
            | inl q ↦ elim (Bool-cases (is_spared now id rec sys)) [
              | inl h ↦ inl (ground (arith, h))
              | inr h ↦ inr (
                rec,
                ground (arith, eq_iff rec.id other),
                t,
                λ o. ground (arith, h, eq_iff rec.owner_instance_id sys.manager.instance_id),
                ground (arith, h, eq_iff rec.id other),
                ground (arith, h),
                ground (arith, h),
              )
            ]
          ]
        ]
  ]

  reap_query-Kept : Kept sys (reap_query memory_store now id sys)
  unfolding reap_query
  reap_query-Kept = elim (Option-cases (stored id sys)) [
    | inl e ↦ ground (arith, unchanged, get_query-missing id sys.store e)
    | inr (rec, e) ↦
        let (l, g) = get_query-stored id rec sys.store e in
        ground (
          arith,
          unchanged,
          fail_owner_lost-IsConsistent now rec l sys c,
          fail_owner_lost-SameAdmission now rec l sys,
        )
  ]

Verdict-trans :
    (now : ℤ) (m m' : Manager) (id : String) (a b d : Option QueryRecord)
    → SameAdmission m m'
    → Verdict now m id a b
    → Verdict now m' id b d
    → Verdict now m id a d
unfolding is_terminal
Verdict-trans now m m' id a b d f (inl p) (inl q) = inl (q ∙ p)
Verdict-trans now m m' id a b d f (inr (r, e, t, o, n, g, w)) (inl q) =
    inr (r, e, t, o, n, g, q ∙ w)
Verdict-trans now m m' id a b d f (inl p) (inr (r, e, t, o, n, g, w)) = inr (
  r,
  sym p ∙ e,
  t,
  λ x. o (x ∙ sym f.owner),
  subst (λ reg. lookup id reg ≡ none) f.registry n,
  subst (λ (k : Config). k.heartbeat_ttl +ℤ k.heartbeat_ttl ≤ℤ now -ℤ r.created_at) f.config g,
  w,
)
Verdict-trans now m m' id a b d f (inr (r, e, t, o, n, g, w)) (inr (r', e', t', o', n', g', w')) =
    absurd (ground arith)

reap_all-Verdict :
    (now : ℤ) (ids : List String) (sys : Sys Memory)
    → IsConsistent sys.store
    → (id : String)
    → Verdict now sys.manager id (stored id sys) (stored id (reap_all memory_store now ids sys))
unfolding reap_all
reap_all-Verdict now [] sys c id = inl refl
reap_all-Verdict now (x ∷ xs) sys c id =
    let mid = reap_query memory_store now x sys in
    let k = reap_query-Kept now x sys c in
    Verdict-trans now sys.manager mid.manager id (stored id sys) (stored id mid) _ k.admission
      (reap_query-Verdict now x sys c id) (reap_all-Verdict now xs mid k.consistent id)

-- A pass of the reaper leaves each record as it is, or fails it with OWNER_LOST. It fails a
-- record only if that was not terminal, belonged to another instance, is not running on this one
-- and is as old as the grace period of two heartbeats. So no verdict of an owner is overwritten.
-- The store holds each record once and under its own id.
pub reap_stale_owners-Verdict :
    (now : ℤ) (sys : Sys Memory) (id : String)
    → IsConsistent sys.store
    → Verdict now sys.manager id
        (stored id sys)
        (stored id (reap_stale_owners memory_store now sys))
unfolding reap_stale_owners list_stale_queries
reap_stale_owners-Verdict now sys id c = reap_all-Verdict now _ sys c id
