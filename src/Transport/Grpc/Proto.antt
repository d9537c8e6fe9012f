-- ===== src/Transport/Grpc/Proto.antt =====
-- internal/transport/grpcconnect/handler.go: the messages of the replies.
use dbbridge.Base.{◌/◌, String, Option, if◌then◌else◌}
use dbbridge.Base.Int.{ℤ, pos, negsuc, is_zero}
use dbbridge.Base.Int64.{quotient}
use dbbridge.Domain.{
  QueryState, pending, running, succeeded, failed, canceled, expired, QueryRecord, QueryStats,
}
use dbbridge.Transport.Rest.Dto.{
  QueryOptionsDto, ResultRefDto, QueryErrorDto, to_options_dto, to_error_dto, to_result_dto,
}

pub data ProtoState : Type 0 where
  unspecified proto_pending proto_running proto_succeeded proto_failed proto_canceled
        proto_expired :
      ProtoState

unfoldable pub map_to_proto_state : QueryState → ProtoState
map_to_proto_state pending = proto_pending
map_to_proto_state running = proto_running
map_to_proto_state succeeded = proto_succeeded
map_to_proto_state failed = proto_failed
map_to_proto_state canceled = proto_canceled
map_to_proto_state expired = proto_expired

pub record ProtoStats : Type 0 where
  pub rows_read : ℤ
  pub bytes_written : ℤ
  pub db_exec_duration_ms : ℤ
  pub storage_write_duration_ms : ℤ
  pub total_duration_ms : ℤ

unfoldable pub map_to_proto_stats : QueryStats → ProtoStats
map_to_proto_stats s = record {
  rows_read = s.rows_read;
  bytes_written = s.bytes_written;
  db_exec_duration_ms = quotient s.db_exec_duration 1_000_000;
  storage_write_duration_ms = quotient s.storage_write_duration 1_000_000;
  total_duration_ms = quotient s.total_duration 1_000_000;
}

-- The time's method, which rounds down.
abbrev unix_milli : ℤ → ℤ
unix_milli (pos n) = pos (n / 1_000_000)
unix_milli (negsuc n) = negsuc (n / 1_000_000)

unfoldable pub unix_millis : ℤ → ℤ
unix_millis t = if is_zero t then pos 0 else unix_milli t

-- The options, the error and the result have the fields of the HTTP API.
pub record ProtoRecord : Type 0 where
  pub id : String
  pub database_id : String
  pub sql : String
  pub options : QueryOptionsDto
  pub state : ProtoState
  pub owner_instance_id : String
  pub created_at_ms : ℤ
  pub started_at_ms : ℤ
  pub finished_at_ms : ℤ
  pub error : Option QueryErrorDto
  pub stats : ProtoStats
  pub result : Option ResultRefDto
  pub idempotency_key : String
  pub lease_deadline_ms : ℤ
  pub subject : String

unfoldable pub map_to_proto_record : QueryRecord → ProtoRecord
unfolding map_to_proto_state map_to_proto_stats unix_millis
map_to_proto_record r = record {
  id = r.id;
  database_id = r.database_id;
  sql = r.sql;
  options = to_options_dto r.options;
  state = map_to_proto_state r.state;
  owner_instance_id = r.owner_instance_id;
  created_at_ms = unix_millis r.created_at;
  started_at_ms = unix_millis r.started_at;
  finished_at_ms = unix_millis r.finished_at;
  error = to_error_dto r.error;
  stats = map_to_proto_stats r.stats;
  result = to_result_dto r.result;
  idempotency_key = r.idempotency_key;
  lease_deadline_ms = unix_millis r.lease_deadline;
  subject = r.subject;
}
