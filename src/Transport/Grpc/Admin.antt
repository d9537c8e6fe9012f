-- ===== src/Transport/Grpc/Admin.antt =====
-- internal/transport/grpcconnect/handler.go: the databases of an instance, whether it can be stopped, and
-- the events of a query.
use dbbridge.Base.{
  ℕ, String, Bool, Option, none, some, List, [], ◌∷◌, Result, ok, err, ltb, ◌%◌, if◌then◌else◌,
}
use dbbridge.Base.Int.{ℤ, pos, ◌-ℤ◌}
use dbbridge.Lifecycle.{State}
use dbbridge.Authn.{Identity}
use dbbridge.State.MetaStore.{MetaStore}
use dbbridge.Manager.Defs.{Sys, QueryEvent}
use dbbridge.Service as Service
use dbbridge.Service.{QueryService, DatabaseInfo}
use dbbridge.Transport.Rest.Dto.{QueryErrorDto, to_error_dto}
use dbbridge.Transport.Grpc.{ConnectError, connect_error}
use dbbridge.Transport.Grpc.Proto.{ProtoState, ProtoStats, map_to_proto_state, map_to_proto_stats}

-- The conversion of Go to 32 bits with a sign, which wraps around at 2 ^ 32.
abbrev to_int32 : ℕ → ℤ
to_int32 n =
    let bits = n % 4_294_967_296 in
    if ltb bits 2_147_483_648 then pos bits else pos bits -ℤ pos 4_294_967_296

-- The state in place of its text.
pub record CanIBeStoppedResponse : Type 0 where
  pub can_be_stopped : Bool
  pub in_flight_count : ℤ
  pub instance_state : State

pub record WatchQueryResponse : Type 0 where
  pub query_id : String
  pub state : ProtoState
  pub stats : ProtoStats
  pub error : Option QueryErrorDto

abbrev event_response : QueryEvent → WatchQueryResponse
event_response ev = record {
  query_id = ev.query_id;
  state = map_to_proto_state ev.state;
  stats = map_to_proto_stats ev.stats;
  error = to_error_dto ev.error;
}

-- The loop of `WatchQuery`, over the events that come before the channel is closed or the caller leaves.
unfoldable pub send_events :
    {W : Type 0}
    → (WatchQueryResponse → W → Option ConnectError × W)
    → List QueryEvent
    → W
    → Option ConnectError × W
send_events send [] w = (none, w)
send_events send (ev ∷ evs) w =
    let (failed, w') = send (event_response ev) w in
    let rest = send_events send evs w' in elim failed [ some x ↦ (some x, w') | none ↦ rest ]

module _ {S : Type 0} (ms : MetaStore S) (sv : QueryService) where
  -- The fields of the message are those of the service's answer.
  unfoldable pub list_databases : (ℕ → Bool) → Sys S → Result ConnectError (List DatabaseInfo)
  list_databases ping sys = ok (Service.list_databases ms sv ping sys)

  unfoldable pub can_be_stopped : Sys S → CanIBeStoppedResponse × QueryService
  can_be_stopped sys =
      let ((can_stop, in_flight, st), sv') = Service.can_be_stopped ms sv sys in
      (
        record {
          can_be_stopped = can_stop;
          in_flight_count = to_int32 in_flight;
          instance_state = st;
        },
        sv',
      )

  -- The system once the watcher is there; `received` gives the events of a channel.
  unfoldable pub watch_query :
      {W : Type 0}
      → (WatchQueryResponse → W → Option ConnectError × W)
      → (ℕ → Sys S → List QueryEvent)
      → Option Identity
      → String
      → Sys S
      → W
      → (Option ConnectError × W) × Sys S
  watch_query send received caller id sys w =
      let (out, sys') = Service.watch_query ms sv caller id sys in
      elim out [
        | err e ↦ ((some (connect_error e), w), sys')
        | ok channel ↦ (send_events send (received channel sys') w, sys')
      ]
