-- ===== src/Domain/Record.antt =====
-- internal/core/domain/models.go: the structs, `Validate` and `NewQueryError`.
use Prim.Native.String.{len, slice, ◌++◌ as str_append}
use dbbridge.Base.{
  String, Bool, not, Option, ℕ, List, [], ◌∷◌, Result, ok, err, ltb, contains, if◌then◌else◌,
}
use dbbridge.Base.Int.{ℤ, pos, ltb_ℤ}
use dbbridge.Domain.State.{QueryState}
use dbbridge.Domain.Errors.{Error, validation_error}

pub record QueryOptions : Type 0 where
  pub timeout : ℤ
  pub mode : String
  pub result_ttl : ℤ
  pub idempotency_key : String
  pub result_format : String
  pub storage_backend : String

abbrev pub valid_result_formats : List String
valid_result_formats = "jsonl" ∷ "csv" ∷ "parquet" ∷ []

abbrev pub valid_modes : List String
valid_modes = "async" ∷ "sync" ∷ []

unfoldable pub validate : QueryOptions → Result Error (Unit {0})
validate o =
    if not (contains o.mode valid_modes)
    then err (validation_error "mode" "must be one of async, sync")
    else if not (contains o.result_format valid_result_formats)
    then err (validation_error "result_format" "must be one of jsonl, csv, parquet")
    else if ltb_ℤ o.timeout (pos 0)
    then err (validation_error "timeout_ms" "must not be negative")
    else if ltb_ℤ o.result_ttl (pos 0)
    then err (validation_error "result_ttl_seconds" "must not be negative")
    else ok tt

pub data QueryErrorCode : Type 0 where
  db_exec_failed query_timeout storage_init_failed storage_writer_failed : QueryErrorCode
  storage_finalize_failed stream_encode_failed owner_lost : QueryErrorCode

pub record QueryError : Type 0 where
  pub code : QueryErrorCode
  pub message : String
  pub retryable : Bool

abbrev pub max_query_error_message : ℕ
max_query_error_message = 512

-- Every caller passes an ASCII message, where a cut at a byte is a cut at a character.
pub new_query_error : QueryErrorCode → String → Bool → QueryError
new_query_error code message retryable = record {
  code = code;
  message =
      if ltb max_query_error_message (len message)
      then str_append (slice message 0 max_query_error_message) "…"
      else message;
  retryable = retryable;
}

pub record QueryStats : Type 0 where
  pub rows_read : ℤ
  pub bytes_written : ℤ
  pub db_exec_duration : ℤ
  pub storage_write_duration : ℤ
  pub total_duration : ℤ

pub record ResultRef : Type 0 where
  pub backend : String
  pub locator : String
  pub size_bytes : ℤ
  pub row_count : ℤ
  pub format : String
  pub checksum : String

-- An instant is `pos 0` where `IsZero` holds of it.
pub record QueryRecord : Type 0 where
  pub id : String
  pub database_id : String
  pub sql : String
  pub options : QueryOptions
  pub state : QueryState
  pub owner_instance_id : String
  pub created_at : ℤ
  pub started_at : ℤ
  pub finished_at : ℤ
  pub error : Option QueryError
  pub stats : QueryStats
  pub result : Option ResultRef
  pub idempotency_key : String
  pub lease_deadline : ℤ
  pub subject : String
