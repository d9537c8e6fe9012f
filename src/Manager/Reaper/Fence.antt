-- ===== src/Manager/Reaper/Fence.antt =====
-- The conditional write of `failOwnerLost` over any store that keeps the contract of the records, with
-- other instances at work between the read and the write.
use dbbridge.Base.{
  String, ◌≡◌, inl, inr, refl, Bool, true, false, Option, some, List, [], ◌∷◌, arith, eq_iff, ok,
  err, Result, Result-cases,
}
use dbbridge.Base.Int.{ℤ}
use dbbridge.Domain.{Error, QueryRecord, QueryState, pending, running, is_terminal, contains_state}
use dbbridge.State.MetaStore.{MetaStore}
use dbbridge.State.Contract.{IsRecordStore}
use dbbridge.Manager.Defs.{Sys}
use dbbridge.Manager.Reaper.{
  lost_record, fail_owner_lost, reap_query, reap_all, reap_stale_owners, recover_query, recover_all,
  recover_orphans,
}

abbrev not_terminal : List QueryState
not_terminal = pending ∷ running ∷ []

not_terminal-contains_state :
    (state : QueryState) → contains_state not_terminal state ≡ true → is_terminal state ≡ false
unfolding is_terminal
not_terminal-contains_state state h = ground (arith, h)

module _ {S : Type 0} (ms : MetaStore S) (find : String → S → Option QueryRecord)
    (others : S → S) where
  -- A finished query is as it was.
  abbrev pub IsKept : String → QueryRecord → S → Type 0
  IsKept id q s = find id s ≡ some q

  module _ (contract : IsRecordStore ms find others) (id : String) (q : QueryRecord)
      (finished : is_terminal q.state ≡ true)
      (others_keep : (s : S) → IsKept id q s → IsKept id q (others s)) where
    update_query_if_state-IsKept :
        (rec : QueryRecord) (s s' : S) (r : Result Error Bool)
        → ms.update_query_if_state rec not_terminal s ≡ (r, s')
        → IsKept id q s
        → IsKept id q s'
    unfolding is_terminal
    update_query_if_state-IsKept rec s s' (ok true) h k = ground (
      arith,
      eq_iff rec.id id,
      contract.update_written rec not_terminal s s' id h,
      others_keep s k,
    )
    update_query_if_state-IsKept rec s s' (ok false) h k =
        ground (arith, contract.update_refused rec not_terminal s s' id h, others_keep s k)
    update_query_if_state-IsKept rec s s' (err e) h k = ground (
      arith,
      eq_iff rec.id id,
      contract.update_failed rec not_terminal s s' e id h,
      others_keep s k,
    )

    fail_owner_lost-IsKept :
        (now : ℤ) (rec : QueryRecord) (sys : Sys S)
        → IsKept id q sys.store
        → IsKept id q (fail_owner_lost ms now rec sys).store
    unfolding fail_owner_lost
    fail_owner_lost-IsKept now rec sys k =
        let r = ms.update_query_if_state (lost_record now rec) not_terminal sys.store in
        ground (arith, update_query_if_state-IsKept (lost_record now rec) sys.store r.1 r.0 refl k)

    reap_query-IsKept :
        (now : ℤ) (one : String) (sys : Sys S)
        → IsKept id q sys.store
        → IsKept id q (reap_query ms now one sys).store
    unfolding reap_query
    reap_query-IsKept now one sys k = elim (Result-cases (ms.get_query one sys.store)) [
      | inr (e, g) ↦ ground (arith, k)
      | inl (rec, g) ↦ ground (arith, k, fail_owner_lost-IsKept now rec sys k)
    ]

    reap_all-IsKept :
        (now : ℤ) (ids : List String) (sys : Sys S)
        → IsKept id q sys.store
        → IsKept id q (reap_all ms now ids sys).store
    unfolding reap_all
    reap_all-IsKept now [] sys k = k
    reap_all-IsKept now (one ∷ ids) sys k =
        reap_all-IsKept now ids (reap_query ms now one sys) (reap_query-IsKept now one sys k)

    recover_query-IsKept :
        (now : ℤ) (one : String) (sys : Sys S)
        → IsKept id q sys.store
        → IsKept id q (recover_query ms now one sys).store
    unfolding recover_query
    recover_query-IsKept now one sys k = elim (Result-cases (ms.get_query one sys.store)) [
      | inr (e, g) ↦ ground (arith, k)
      | inl (rec, g) ↦ ground (arith, k, fail_owner_lost-IsKept now rec sys k)
    ]

    recover_all-IsKept :
        (now : ℤ) (ids : List String) (sys : Sys S)
        → IsKept id q sys.store
        → IsKept id q (recover_all ms now ids sys).store
    unfolding recover_all
    recover_all-IsKept now [] sys k = k
    recover_all-IsKept now (one ∷ ids) sys k =
        recover_all-IsKept now ids (recover_query ms now one sys)
          (recover_query-IsKept now one sys k)

    -- On any store that keeps the contract, no pass of the reaper and no recovery at startup changes a
    -- finished query, whatever their reads returned and their writes reported, if the other clients
    -- leave it as it is.
    pub reap_stale_owners-IsKept :
        (now : ℤ) (sys : Sys S)
        → IsKept id q sys.store
        → IsKept id q (reap_stale_owners ms now sys).store
          × IsKept id q (recover_orphans ms now sys).store
    unfolding reap_stale_owners recover_orphans
    reap_stale_owners-IsKept now sys k = (
      elim (Result-cases (ms.list_stale_queries now sys.store)) [
        | inr (e, g) ↦ ground (arith, k)
        | inl (ids, g) ↦ ground (arith, reap_all-IsKept now ids sys k)
      ],
      elim (Result-cases (ms.list_by_instance sys.manager.instance_id sys.store)) [
        | inr (e, g) ↦ ground (arith, k)
        | inl (ids, g) ↦ ground (arith, recover_all-IsKept now ids sys k)
      ],
    )
