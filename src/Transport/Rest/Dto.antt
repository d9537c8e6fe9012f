-- ===== src/Transport/Rest/Dto.antt =====
-- internal/transport/rest/dto.go: the types of the replies, and the conversions of the domain model.
use dbbridge.Base.{String, Bool, Option, none, some, if◌then◌else◌}
use dbbridge.Base.Int.{ℤ, is_zero}
use dbbridge.Base.Int64.{quotient}
use dbbridge.Domain.{
  QueryOptions, QueryRecord, QueryStats, QueryError, QueryErrorCode, ResultRef, QueryState,
}

pub record QueryOptionsDto : Type 0 where
  pub timeout_ms : ℤ
  pub mode : String
  pub result_ttl_seconds : ℤ
  pub idempotency_key : String
  pub result_format : String
  pub storage_backend : String

pub record QueryStatsDto : Type 0 where
  pub rows_read : ℤ
  pub bytes_written : ℤ
  pub db_exec_duration_ms : ℤ
  pub storage_write_duration_ms : ℤ
  pub total_duration_ms : ℤ

pub record ResultRefDto : Type 0 where
  pub backend : String
  pub locator : String
  pub size_bytes : ℤ
  pub row_count : ℤ
  pub format : String
  pub checksum : String

pub record QueryErrorDto : Type 0 where
  pub code : QueryErrorCode
  pub message : String
  pub retryable : Bool

-- A state and a code of an error are sent as their texts, one for each.
pub record QueryRecordDto : Type 0 where
  pub id : String
  pub database_id : String
  pub sql : String
  pub options : QueryOptionsDto
  pub state : QueryState
  pub owner_instance_id : String
  pub created_at : ℤ
  pub started_at : Option ℤ
  pub finished_at : Option ℤ
  pub lease_deadline : Option ℤ
  pub error : Option QueryErrorDto
  pub stats : QueryStatsDto
  pub result : Option ResultRefDto
  pub idempotency_key : String
  pub subject : String

unfoldable pub optional_time : ℤ → Option ℤ
optional_time t = if is_zero t then none else some t

unfoldable pub to_options_dto : QueryOptions → QueryOptionsDto
to_options_dto o = record {
  timeout_ms = quotient o.timeout 1_000_000;
  mode = o.mode;
  result_ttl_seconds = quotient o.result_ttl 1_000_000_000;
  idempotency_key = o.idempotency_key;
  result_format = o.result_format;
  storage_backend = o.storage_backend;
}

unfoldable pub to_stats_dto : QueryStats → QueryStatsDto
to_stats_dto s = record {
  rows_read = s.rows_read;
  bytes_written = s.bytes_written;
  db_exec_duration_ms = quotient s.db_exec_duration 1_000_000;
  storage_write_duration_ms = quotient s.storage_write_duration 1_000_000;
  total_duration_ms = quotient s.total_duration 1_000_000;
}

abbrev pub to_error_dto : Option QueryError → Option QueryErrorDto
to_error_dto none = none
to_error_dto (some e) =
    some (record { code = e.code; message = e.message; retryable = e.retryable })

abbrev pub to_result_dto : Option ResultRef → Option ResultRefDto
to_result_dto none = none
to_result_dto (some ref) = some (record {
  backend = ref.backend;
  locator = ref.locator;
  size_bytes = ref.size_bytes;
  row_count = ref.row_count;
  format = ref.format;
  checksum = ref.checksum;
})

unfoldable pub to_record_dto : QueryRecord → QueryRecordDto
unfolding optional_time to_options_dto to_stats_dto
to_record_dto r = record {
  id = r.id;
  database_id = r.database_id;
  sql = r.sql;
  options = to_options_dto r.options;
  state = r.state;
  owner_instance_id = r.owner_instance_id;
  created_at = r.created_at;
  started_at = optional_time r.started_at;
  finished_at = optional_time r.finished_at;
  lease_deadline = optional_time r.lease_deadline;
  error = to_error_dto r.error;
  stats = to_stats_dto r.stats;
  result = to_result_dto r.result;
  idempotency_key = r.idempotency_key;
  subject = r.subject;
}
