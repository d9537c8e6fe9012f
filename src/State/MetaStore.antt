-- ===== src/State/MetaStore.antt =====
-- internal/state/metastore.go: the messages between instances and the `MetaStore` interface over
-- a store's state `S`. A call that reads the clock takes the time as its first argument. An
-- operation that writes returns the new state beside its error.
use dbbridge.Base.{String, Bool, Option, List, ℕ, Result}
use dbbridge.Base.Int.{ℤ}
use dbbridge.Domain.{Error, QueryRecord, QueryState, QueryStats, QueryError}

pub data ControlType : Type 0 where
  control_stop_query control_query_event : ControlType

pub record QueryEventPayload : Type 0 where
  pub state : QueryState
  pub stats : QueryStats
  pub error : Option QueryError

pub record ControlMsg : Type 0 where
  pub kind : ControlType
  pub query_id : String
  pub sender_id : String
  pub event : Option QueryEventPayload

-- An operation on the store.
abbrev pub Op : Type 0 → Type 0 → Type 0
Op S A = S → Result Error A × S

pub record MetaStore (S : Type 0) : Type 0 where
  pub put_query : QueryRecord → Op S Unit
  pub get_query : String → S → Result Error QueryRecord
  pub update_query : QueryRecord → Op S Unit
  pub update_query_if_state : QueryRecord → List QueryState → Op S Bool
  -- now, database, key, query, TTL; the holder of the key and whether it was acquired
  pub acquire_idempotency : ℤ → String → String → String → ℤ → Op S (String × Bool)
  pub release_idempotency : String → String → String → Op S Unit
  pub refresh_idempotency : ℤ → String → String → String → ℤ → Op S Unit
  -- now, instance, queries, TTL
  pub heartbeat : ℤ → String → List String → ℤ → Op S Unit
  pub try_lock : ℤ → String → ℤ → Op S Bool
  pub publish_control : ControlMsg → Op S Unit
  pub count_in_flight : String → S → Result Error ℕ
  pub list_by_instance : String → S → Result Error (List String)
  pub list_databases_seen : S → Result Error (List String)
  pub list_expired_queries : ℤ → S → Result Error (List String)
  pub list_stale_queries : ℤ → S → Result Error (List String)
  pub delete_query : String → Op S Unit
