-- ===== src/Manager/Defs.antt =====
-- internal/core/manager/manager.go: the state of `QueryManager`. A step of the model is what the
-- code does while it holds one of the manager's locks, or one call of the MetaStore.
use dbbridge.Base.{ℕ, String, Bool, Option, List}
use dbbridge.Base.Int.{ℤ}
use dbbridge.Base.Assoc.{Assoc}
use dbbridge.Domain.{QueryState, QueryStats, QueryError}
use dbbridge.Config.{Config, DatabaseConfig}

pub record QueryEvent : Type 0 where
  pub query_id : String
  pub state : QueryState
  pub stats : QueryStats
  pub error : Option QueryError

-- A pool of connections is known by its number.
pub record ManagedPool : Type 0 where
  pub pool : ℕ
  pub cfg : DatabaseConfig

-- `cancel` of the source ends the execution context: `canceled` is whether it was called.
pub record ActiveQuery : Type 0 where
  pub db_id : String
  pub canceled : Bool

-- The channel `slots`: its capacity and the number of elements in it.
pub record Slots : Type 0 where
  pub capacity : ℕ
  pub used : ℕ

-- The channel of a subscription, with the events waiting in it.
pub record Watcher : Type 0 where
  pub channel : ℕ
  pub waiting : List QueryEvent

pub record Manager : Type 0 where
  pub instance_id : String
  pub default_storage : String
  pub cfg : Config
  pub db_pools : Assoc ManagedPool
  pub gc_period_dur : ℤ
  pub active_reg : Assoc ActiveQuery
  pub draining : Bool
  pub slots : Option Slots
  pub watchers : Assoc (List Watcher)
  -- the closed channels, with what their readers have not received yet
  pub closed : List Watcher
  pub next_channel : ℕ
  -- the publish queue, and what the publisher has taken from it and not published
  pub events : List QueryEvent
  pub taken : List QueryEvent
  -- whether the publisher makes room within `eventPublishTerminalWait`
  pub keeps_up : Bool

-- The manager and the store that it shares with the other instances.
pub record Sys (S : Type 0) : Type 0 where
  pub manager : Manager
  pub store : S
