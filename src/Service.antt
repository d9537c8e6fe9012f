-- ===== src/Service.antt =====
-- internal/core/service/service.go: `QueryService`, over the manager with its store. `caller` is the
-- identity in the request's context. Spans are left out.
pub mod Section
pub mod Access
pub mod Download
use Prim.Native.String.{◌++◌ as str_append}
use dbbridge.Base.{
  ℕ, String, ◌==◌, Bool, true, false, not, ◌&&◌, ◌||◌, Option, none, some, List, [], ◌∷◌, ◌++◌,
  if◌then◌else◌, Result, ok, err, nat_beq, contains,
}
use dbbridge.Base.Int.{ℤ, pos, ltb_ℤ}
use dbbridge.Base.Assoc.{Assoc, lookup}
use dbbridge.Domain.{
  Error, draining_error, not_found_error, validation_error, wrapped_error, failure, QueryRecord,
  QueryOptions, QueryState, QueryStats, ResultRef, pending, running, succeeded, failed, canceled,
  expired, ◌=s=◌,
}
use dbbridge.Authn.{Identity, authorize_subject}
use dbbridge.Config.{DatabaseConfig}
use dbbridge.Lifecycle.{State, is_draining, advance}
use dbbridge.State.MetaStore.{MetaStore}
use dbbridge.Manager.Defs.{Manager, Sys}
use dbbridge.Manager.Admission.{count_in_flight}
use dbbridge.Manager.Submit.{Env, Request, Outcome, no_stats, submit_query}
use dbbridge.Manager.Pools.{lookup_pool}
use dbbridge.Manager.Watchers.{watch}
use dbbridge.Manager.Control as Control
use dbbridge.Service.Section.{SectionReadCloser, new_section_read_closer}

pub record QueryService : Type 0 where
  pub lifecycle : State
  pub auth_required : Bool

-- `NewQueryService` and `SetAuthRequired`
abbrev pub new_query_service : State → QueryService
new_query_service lm = record { lifecycle = lm; auth_required = false }

abbrev pub set_auth_required : Bool → QueryService → QueryService
set_auth_required v sv = record sv { auth_required = v }

-- The text of a state, as the source writes it.
abbrev pub state_text : QueryState → String
state_text pending = "PENDING"
state_text running = "RUNNING"
state_text succeeded = "SUCCEEDED"
state_text failed = "FAILED"
state_text canceled = "CANCELED"
state_text expired = "EXPIRED"

pub record DatabaseInfo : Type 0 where
  pub id : String
  pub engine : String
  pub display_name : String
  pub healthy : Bool

-- What a download is served from: the stored object itself, or a section of it.
pub data Body (R : Type 0) : Type 0 where
  whole : R → Body R
  section : SectionReadCloser R → Body R

-- A result backend: `Reader` of an object.
abbrev pub Backend : Type 0 → Type 0
Backend R = ResultRef → Result Error R

abbrev pub is_anonymous : Option Identity → Bool
is_anonymous none = true
is_anonymous (some i) = false

module _ {S : Type 0} (ms : MetaStore S) (sv : QueryService) where
  unfoldable pub start_query : Env → Request → Sys S → Result Error Outcome × Sys S
  start_query env r sys =
      if is_draining sv.lifecycle then (err draining_error, sys) else submit_query ms env r sys

  unfoldable pub authorized : Option Identity → String → S → Result Error QueryRecord
  authorized caller query_id s =
      if sv.auth_required && is_anonymous caller
      then err (not_found_error "query" query_id)
      else elim (ms.get_query query_id s) [
        | err e ↦ err e
        | ok rec ↦ elim (authorize_subject caller rec.subject) [
          | err e ↦ err (not_found_error "query" query_id)
          | ok u ↦ ok rec
        ]
      ]

  unfoldable pub get_query_status : Option Identity → String → S → Result Error QueryRecord
  get_query_status caller query_id s = authorized caller query_id s

  unfoldable pub stop_query : Option Identity → String → Sys S → Result Error (Unit {0}) × Sys S
  stop_query caller query_id sys = elim (authorized caller query_id sys.store) [
    | err e ↦ (err e, sys)
    | ok rec ↦ Control.stop_query ms query_id sys
  ]

  unfoldable pub get_query_stats : Option Identity → String → S → Result Error QueryStats
  get_query_stats caller query_id s = elim (authorized caller query_id s) [
    | err e ↦ err e
    | ok rec ↦ ok rec.stats
  ]

  -- The body of a result that is there; the name in the text of the error is not quoted here.
  unfoldable pub open_result :
      {R : Type 0} → Assoc (Backend R) → ℤ → ℤ → ResultRef → Result Error (Body R × ResultRef)
  open_result stores offset limit ref = elim (lookup ref.backend stores) [
    | none ↦ err (
        wrapped_error "failed to load result storage"
          (failure (str_append "storage: unknown storage backend " ref.backend)))
    | some open_reader ↦ elim (open_reader ref) [
      | err e ↦ err (wrapped_error "failed to open result reader" e)
      | ok r ↦
          if ltb_ℤ (pos 0) offset || ltb_ℤ (pos 0) limit
          then ok (section (new_section_read_closer r offset limit), ref)
          else ok (whole r, ref)
    ]
  ]

  unfoldable pub download_result :
      {R : Type 0}
      → Assoc (Backend R)
      → Option Identity
      → String
      → ℤ
      → ℤ
      → S
      → Result Error (Body R × ResultRef)
  download_result stores caller query_id offset limit s = elim (authorized caller query_id s) [
    | err e ↦ err e
    | ok rec ↦
        if not (rec.state =s= succeeded)
        then err (
            validation_error "query_id" (
              str_append "query is in state "
                (str_append (state_text rec.state) ", results are only available for SUCCEEDED")))
        else elim rec.result [
          | none ↦ err (not_found_error "result for query" query_id)
          | some ref ↦ open_result stores offset limit ref
        ]
  ]

  -- A configured database; `ping` is `Ping` of a pool.
  abbrev database_info : (ℕ → Bool) → Manager → DatabaseConfig → DatabaseInfo
  database_info ping m db = record {
    id = db.id;
    engine = db.engine;
    display_name = db.display_name;
    healthy = elim (lookup_pool db.id m) [ none ↦ false | some p ↦ ping p ];
  }

  unfoldable pub configured_infos : (ℕ → Bool) → Manager → List DatabaseConfig → List DatabaseInfo
  configured_infos ping m [] = []
  configured_infos ping m (db ∷ dbs) = database_info ping m db ∷ configured_infos ping m dbs

  abbrev pub config_ids : List DatabaseConfig → List String
  config_ids [] = []
  config_ids (db ∷ dbs) = db.id ∷ config_ids dbs

  -- The databases that hold results and are not configured any more.
  unfoldable pub dropped_infos : List String → List String → List DatabaseInfo
  dropped_infos configured [] = []
  dropped_infos configured (id ∷ ids) =
      let rest = dropped_infos configured ids in
      if (id == "") || contains id configured
      then rest
      else record { id = id; engine = ""; display_name = ""; healthy = false } ∷ rest

  unfoldable pub list_databases : (ℕ → Bool) → Sys S → List DatabaseInfo
  list_databases ping sys =
      let dbs = sys.manager.cfg.databases in
      let databases = configured_infos ping sys.manager dbs in
      elim (ms.list_databases_seen sys.store) [
        | err e ↦ databases
        | ok seen ↦ databases ++ dropped_infos (config_ids dbs) seen
      ]

  -- The service with its new lifecycle state, and the answer.
  unfoldable pub can_be_stopped : Sys S → (Bool × ℕ × State) × QueryService
  can_be_stopped sys =
      let in_flight = count_in_flight ms sys in
      let st = advance sv.lifecycle in_flight in
      ((nat_beq in_flight 0, in_flight, st), record sv { lifecycle = st })

  unfoldable pub watch_query : Option Identity → String → Sys S → Result Error ℕ × Sys S
  watch_query caller query_id sys = elim (authorized caller query_id sys.store) [
    | err e ↦ (err e, sys)
    | ok rec ↦ watch ms query_id sys
  ]
