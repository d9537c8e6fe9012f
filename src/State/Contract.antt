-- ===== src/State/Contract.antt =====
-- What `MetaStore` promises of the records, for any store: the specification that the two
-- implementations meet.
use dbbridge.Base.{
  String, ◌==◌, ◌≡◌, ◌⊎◌, true, false, Option, none, some, List, ok, err, if◌then◌else◌,
}
use dbbridge.Base.Int.{pos}
use dbbridge.Domain.{Error, QueryRecord, QueryState, record_missing, contains_state}
use dbbridge.State.MetaStore.{MetaStore}

-- A record as it is kept: without the deadline of its lease.
abbrev pub kept : QueryRecord → QueryRecord
kept rec = record rec { lease_deadline = pos 0 }

-- The records after `rec` has been written over `before`.
abbrev pub written : QueryRecord → String → Option QueryRecord → Option QueryRecord
written rec id before = if rec.id == id then some (kept rec) else before

-- Whether the record of `id` is there in one of the expected states.
abbrev pub IsExpected : Option QueryRecord → List QueryState → Type 0
IsExpected found expected =
    (current : QueryRecord) × (found ≡ some current)
    × (contains_state expected current.state ≡ true)

-- `find` is the abstract content, and `others` what other clients do to the store while a call is
-- under way.
pub record IsRecordStore {S : Type 0} (ms : MetaStore S) (find : String → S → Option QueryRecord)
    (others : S → S) : Type 0 where
  pub put_written :
      (rec : QueryRecord) (s s' : S) (id : String)
      → ms.put_query rec s ≡ (ok tt, s')
      → find id s' ≡ written rec id (find id s)
  pub get_found :
      (id : String) (s : S) (rec : QueryRecord)
      → ms.get_query id s ≡ ok rec
      → (q : QueryRecord) × (find id s ≡ some q) × (kept rec ≡ kept q)
  pub get_missing :
      (id : String) (s : S) → ms.get_query id s ≡ err record_missing → find id s ≡ none
  -- a conditional write goes through only over a record in an expected state, as it is when it is
  -- written
  pub update_written :
      (rec : QueryRecord) (expected : List QueryState) (s s' : S) (id : String)
      → ms.update_query_if_state rec expected s ≡ (ok true, s')
      → IsExpected (find rec.id (others s)) expected
        × (find id s' ≡ written rec id (find id (others s)))
  -- and a refused one writes nothing
  pub update_refused :
      (rec : QueryRecord) (expected : List QueryState) (s s' : S) (id : String)
      → ms.update_query_if_state rec expected s ≡ (ok false, s')
      → (find id s' ≡ find id s) ⊎ (find id s' ≡ find id (others s))
  -- a failed one may have gone through, under the same condition
  pub update_failed :
      (rec : QueryRecord) (expected : List QueryState) (s s' : S) (e : Error) (id : String)
      → ms.update_query_if_state rec expected s ≡ (err e, s')
      → (find id s' ≡ find id s)
        ⊎ ((find id s' ≡ find id (others s))
            ⊎ (IsExpected (find rec.id (others s)) expected
                × (find id s' ≡ written rec id (find id (others s)))))
  pub delete_removed :
      (gone : String) (s s' : S) (id : String)
      → ms.delete_query gone s ≡ (ok tt, s')
      → find id s' ≡ (if gone == id then none else find id (others s))
