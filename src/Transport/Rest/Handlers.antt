-- ===== src/Transport/Rest/Handlers.antt =====
-- internal/transport/rest/server.go and auth.go: the handlers of the queries, and the gate in front of
-- them. A route gives the handler its path parameter; `caller` is the identity in the request's context.
use dbbridge.Base.{ℕ, String, ◌==◌, Option, none, some, List, Result, ok, err, if◌then◌else◌}
use dbbridge.Base.Int.{ℤ, pos, ltb_ℤ}
use dbbridge.Base.Int64.{times}
use dbbridge.Domain.{Error, validation_error, QueryOptions, QueryRecord}
use dbbridge.Authn.{Identity, Token, has_scope, authenticate}
use dbbridge.State.MetaStore.{MetaStore}
use dbbridge.Manager.Defs.{Sys}
use dbbridge.Manager.Submit.{Env, Request, Outcome, accepted, existing}
use dbbridge.Lifecycle.{is_draining}
use dbbridge.Service as Service
use dbbridge.Service.{QueryService, Body, Backend}
use dbbridge.Transport.Rest.Status.{classify}
use dbbridge.Transport.Rest.Dto.{QueryRecordDto, QueryStatsDto, to_record_dto, to_stats_dto}

pub record Options : Type 0 where
  pub max_request_bytes : ℤ
  pub request_timeout : ℤ

unfoldable pub with_defaults : Options → Options
with_defaults o = record {
  max_request_bytes =
      if ltb_ℤ (pos 0) o.max_request_bytes then o.max_request_bytes else pos 1_048_576;
  request_timeout =
      if ltb_ℤ (pos 0) o.request_timeout then o.request_timeout else pos 60_000_000_000;
}

-- What the header `Content-Range` says: no part of so many bytes, or a part of them.
pub data ContentRange : Type 0 where
  unsatisfied : ℤ → ContentRange
  part : ℤ → ℤ → ℤ → ContentRange

pub data Payload (R : Type 0) : Type 0 where
  message : String → Payload R
  a_record : QueryRecordDto → Payload R
  a_stats : QueryStatsDto → Payload R
  stopped : String → Payload R
  bytes : Body R → Payload R
  text : String → Payload R

pub record Reply (R : Type 0) : Type 0 where
  pub status : ℕ
  pub content_type : String
  pub content_range : Option ContentRange
  pub payload : Payload R

module _ {R : Type 0} where
  -- `writeStatus`
  abbrev pub write_status : ℕ → String → Reply R
  write_status status msg = record {
    status = status;
    content_type = "application/json";
    content_range = none;
    payload = message msg;
  }

  -- `writeError`
  unfoldable pub write_error : Error → Reply R
  write_error e = let (status, msg) = classify (some e) in write_status status msg

  abbrev pub write_validation_error : String → String → Reply R
  write_validation_error field reason = write_error (validation_error field reason)

  abbrev pub write_json : ℕ → Payload R → Reply R
  write_json status payload = record {
    status = status;
    content_type = "application/json";
    content_range = none;
    payload = payload;
  }

  -- `require`: the identity of the caller, or the refusal. `none` is authentication that is off.
  unfoldable pub require :
      Option (List Token) → String → String → Result (Reply R) (Option Identity)
  require none scope credential = ok none
  require (some tokens) scope credential = elim (authenticate tokens credential) [
    | err e ↦ err (write_status 401 "unauthorized")
    | ok id ↦ if has_scope id scope then ok (some id) else err (write_status 403 "forbidden")
  ]

  -- `handleReadyz`, for a server with its service.
  unfoldable pub handle_readyz : QueryService → Reply R
  handle_readyz sv =
      if is_draining sv.lifecycle
      then record {
        status = 503;
        content_type = "";
        content_range = none;
        payload = text "NOT READY";
      }
      else record { status = 200; content_type = ""; content_range = none; payload = text "READY" }

-- `StartQueryPayload`
pub record StartQueryPayload : Type 0 where
  pub database_id : String
  pub sql : String
  pub timeout_ms : ℤ
  pub mode : String
  pub result_ttl_seconds : ℤ
  pub result_format : String
  pub storage_backend : String

-- Why a body cannot be decoded.
pub data DecodeError : Type 0 where
  too_large malformed : DecodeError

unfoldable pub options_of : StartQueryPayload → String → QueryOptions
options_of payload key = record {
  timeout = times 1_000_000 payload.timeout_ms;
  mode = payload.mode;
  result_ttl = times 1_000_000_000 payload.result_ttl_seconds;
  idempotency_key = key;
  result_format = payload.result_format;
  storage_backend = payload.storage_backend;
}

abbrev record_of : Outcome → QueryRecord
record_of (accepted rec) = rec
record_of (existing rec) = rec

module _ {S R : Type 0} (ms : MetaStore S) (sv : QueryService) where
  -- The submission of a payload that was decoded; `to_request` adds the time, the new id and the caller.
  unfoldable pub start_decoded :
      Env
      → (String → String → QueryOptions → Request)
      → StartQueryPayload
      → String
      → Sys S
      → Reply R × Sys S
  start_decoded env to_request payload key sys =
      if payload.database_id == ""
      then (write_validation_error "database_id" "is required", sys)
      else if payload.sql == ""
      then (write_validation_error "sql" "is required", sys)
      else let opts = options_of payload key in
        let (r, sys') =
          Service.start_query ms sv env (to_request payload.database_id payload.sql opts) sys in
        elim r [
          | err e ↦ (write_error e, sys')
          | ok out ↦ (
            write_json (if opts.mode == "sync" then 200 else 202)
                (a_record (to_record_dto (record_of out))),
            sys',
          )
        ]

  unfoldable pub handle_start_query :
      Env
      → (String → String → QueryOptions → Request)
      → Result DecodeError StartQueryPayload
      → String
      → Sys S
      → Reply R × Sys S
  handle_start_query env to_request (err too_large) key sys =
      (write_status 413 "request body exceeds the limit", sys)
  handle_start_query env to_request (err malformed) key sys =
      (write_validation_error "body" "malformed JSON", sys)
  handle_start_query env to_request (ok payload) key sys =
      start_decoded env to_request payload key sys

  unfoldable pub handle_get_query_status : Option Identity → String → S → Reply R
  handle_get_query_status caller id s =
      if id == ""
      then write_validation_error "id" "is required"
      else elim (Service.get_query_status ms sv caller id s) [
        | err e ↦ write_error e
        | ok rec ↦ write_json 200 (a_record (to_record_dto rec))
      ]

  unfoldable pub handle_get_query_stats : Option Identity → String → S → Reply R
  handle_get_query_stats caller id s =
      if id == ""
      then write_validation_error "id" "is required"
      else elim (Service.get_query_stats ms sv caller id s) [
        | err e ↦ write_error e
        | ok stats ↦ write_json 200 (a_stats (to_stats_dto stats))
      ]

  unfoldable pub handle_stop_query : Option Identity → String → Sys S → Reply R × Sys S
  handle_stop_query caller id sys =
      let (r, sys') = Service.stop_query ms sv caller id sys in
      if id == ""
      then (write_validation_error "id" "is required", sys)
      else elim r [ err e ↦ (write_error e, sys') | ok u ↦ (write_json 200 (stopped id), sys') ]
