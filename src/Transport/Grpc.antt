-- ===== src/Transport/Grpc.antt =====
-- internal/transport/grpcconnect: the service over Connect. A call of a handler gives its response, or
-- a Connect error; `send` of a stream is a parameter.
pub mod Proto
pub mod Scopes
pub mod Admin
pub mod Agreement
pub mod Chunks
use dbbridge.Base.{
  ℕ, zero, suc, String, Bool, true, false, Option, none, some, List, [], ◌∷◌, Result, ok, err,
  length, ltb, if◌then◌else◌,
}
use dbbridge.Base.Int.{ℤ}
use dbbridge.Base.Assoc.{Assoc}
use dbbridge.Domain.{
  Error, draining_error, validation_error, not_found_error, unavailable_error,
  resource_exhausted_error, record_missing, wrapped_error, failure, QueryOptions, QueryRecord,
}
use dbbridge.Authn.{Identity}
use dbbridge.State.MetaStore.{MetaStore}
use dbbridge.Manager.Defs.{Sys}
use dbbridge.Manager.Submit.{Env, Request, Outcome, accepted, existing}
use dbbridge.Service as Service
use dbbridge.Service.{QueryService, Body, whole, section, Backend}
use dbbridge.Service.Section as Section
use dbbridge.Service.Section.{Reader, ReadError, eof, read_failed}
use dbbridge.Transport.Rest.Status.{cause, error_text}
use dbbridge.Transport.Grpc.Proto.{ProtoRecord, ProtoStats, map_to_proto_record, map_to_proto_stats}

-- `connect.Code`
pub data Code : Type 0 where
  invalid_argument not_found unavailable resource_exhausted internal : Code

pub record ConnectError : Type 0 where
  pub code : Code
  pub text : String

abbrev connect_code : Error → String → ConnectError
connect_code (validation_error field reason) text = record { code = invalid_argument; text = text }
connect_code (not_found_error resource id) text = record { code = not_found; text = "not found" }
connect_code record_missing text = record { code = not_found; text = "not found" }
connect_code draining_error text = record { code = unavailable; text = text }
connect_code (unavailable_error resource) text = record { code = unavailable; text = text }
connect_code (resource_exhausted_error reason) text = record {
  code = resource_exhausted;
  text = text;
}
connect_code (failure t) text = record { code = internal; text = "internal error" }
connect_code (wrapped_error t e) text = record { code = internal; text = "internal error" }

unfoldable pub connect_error : Error → ConnectError
connect_error e = connect_code (cause e) (error_text e)

abbrev pub lift {ℓ κ} : {A : Type ℓ} {B : Type κ} → (A → B) → Result Error A → Result ConnectError B
lift f (ok a) = ok (f a)
lift f (err e) = err (connect_error e)

abbrev started_record : Outcome → ProtoRecord
started_record (accepted rec) = map_to_proto_record rec
started_record (existing rec) = map_to_proto_record rec

module _ {S : Type 0} (ms : MetaStore S) (sv : QueryService) where
  -- The request is the message with the caller, the time and the id of a new query; options that the
  -- message does not have are all zero.
  unfoldable pub start_query : Env → Request → Sys S → Result ConnectError ProtoRecord × Sys S
  start_query env r sys =
      let (out, sys') = Service.start_query ms sv env r sys in (lift started_record out, sys')

  unfoldable pub get_query_status : Option Identity → String → S → Result ConnectError ProtoRecord
  get_query_status caller id s =
      lift map_to_proto_record (Service.get_query_status ms sv caller id s)

  unfoldable pub get_query_stats : Option Identity → String → S → Result ConnectError ProtoStats
  get_query_stats caller id s = lift map_to_proto_stats (Service.get_query_stats ms sv caller id s)

  -- The id of the stopped query.
  unfoldable pub stop_query : Option Identity → String → Sys S → Result ConnectError String × Sys S
  stop_query caller id sys =
      let (out, sys') = Service.stop_query ms sv caller id sys in (lift (λ u. id) out, sys')

-- 64 KB
abbrev pub chunk_size : ℕ
chunk_size = 65_536

-- `Read` of the body of a download.
unfoldable pub read_body :
    {B R : Type 0} → Reader B R → ℕ → Body R → (List B × Option ReadError) × Body R
read_body rd len (whole r) = let (got, r') = rd.read len r in (got, whole r')
read_body rd len (section src) = let (got, src') = Section.read rd len src in (got, section src')

module _ {B R W : Type 0} (rd : Reader B R) (send : List B → W → Option ConnectError × W) where
  -- The end of a read: the stream goes on, ends, or fails.
  abbrev after_read : Option ReadError → Option (Option ConnectError)
  after_read none = none
  after_read (some eof) = some none
  after_read (some (read_failed e)) = some (some (connect_error e))

  -- A chunk is sent if it has something in it.
  abbrev pub send_chunk : List B → W → Option ConnectError × W
  send_chunk [] w = (none, w)
  send_chunk (b ∷ bs) w = send (b ∷ bs) w

  -- The loop of `DownloadResult`.
  unfoldable pub pump : ℕ → Body R → W → Option ConnectError × W
  pump zero body w = (none, w)
  pump (suc fuel) body w =
      let ((bytes, e), body') = read_body rd chunk_size body in
      let (failed, w') = send_chunk bytes w in
      let rest = pump fuel body' w' in
      elim failed [
        | some x ↦ (some x, w')
        | none ↦ elim (after_read e) [ none ↦ rest | some end ↦ (end, w') ]
      ]

  unfoldable pub download_result :
      {S : Type 0}
      → MetaStore S
      → QueryService
      → Assoc (Backend R)
      → ℕ
      → Option Identity
      → String
      → ℤ
      → ℤ
      → S
      → W
      → Option ConnectError × W
  download_result ms sv stores fuel caller id offset limit s w =
      elim (Service.download_result ms sv stores caller id offset limit s) [
        | err e ↦ (some (connect_error e), w)
        | ok (body, ref) ↦ pump fuel body w
      ]
