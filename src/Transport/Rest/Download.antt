-- ===== src/Transport/Rest/Download.antt =====
-- internal/transport/rest/server.go: `handleDownloadResult`.
use dbbridge.Base.{
  String, ◌==◌, not, ◌||◌, ◌&&◌, Option, none, some, [], ◌∷◌, ok, err, if◌then◌else◌,
}
use dbbridge.Base.Int.{ℤ, pos, ltb_ℤ, ◌+ℤ◌, ◌-ℤ◌}
use dbbridge.Base.Int64.{wrap}
use dbbridge.Base.Assoc.{Assoc}
use dbbridge.Domain.{ResultRef}
use dbbridge.Authn.{Identity}
use dbbridge.State.MetaStore.{MetaStore}
use dbbridge.Sqlguard.{Text}
use dbbridge.Service as Service
use dbbridge.Service.{QueryService, Body, Backend}
use dbbridge.Transport.Rest.ByteRange.{parse_int, parse_byte_range}
use dbbridge.Transport.Rest.Handlers.{
  unsatisfied, part, bytes, message, Reply, write_status, write_error, write_validation_error,
}

-- What a request asks for: the header `Range`, and the parameters `offset` and `limit`; an absent one
-- is empty.
pub record DownloadRequest : Type 0 where
  pub id : String
  pub range_header : Text
  pub offset_text : Text
  pub limit_text : Text

-- A parameter that is not negative; an absent one is zero.
unfoldable pub parameter : Text → Option ℤ
parameter [] = some (pos 0)
parameter (c ∷ cs) = elim (parse_int (c ∷ cs)) [
  | none ↦ none
  | some n ↦ if ltb_ℤ n (pos 0) then none else some n
]

-- `limit` for a range; the sum can wrap around.
abbrev pub range_limit : ℤ → ℤ → ℤ
range_limit start end = if ltb_ℤ end (pos 0) then pos 0 else wrap (end -ℤ start +ℤ pos 1)

unfoldable pub content_type_of : String → String
content_type_of format =
    if format == "csv"
    then "text/csv"
    else if format == "jsonl"
    then "application/x-jsonlines"
    else "application/octet-stream"

abbrev pub last_byte : ℤ → ℤ → ℤ
last_byte end total = if ltb_ℤ end (pos 0) || not (ltb_ℤ end total) then total -ℤ pos 1 else end

module _ {R : Type 0} where
  -- The reply with a body that was opened, without and with a range.
  abbrev pub whole_reply : Body R → ResultRef → Reply R
  whole_reply body ref = record {
    status = 200;
    content_type = content_type_of ref.format;
    content_range = none;
    payload = bytes body;
  }

  unfoldable pub range_reply : ℤ → ℤ → Body R → ResultRef → Reply R
  range_reply start end body ref =
      let total = ref.size_bytes in
      if not (ltb_ℤ total (pos 0)) && not (ltb_ℤ start total)
      then record {
        status = 416;
        content_type = "application/json";
        content_range = some (unsatisfied total);
        payload = message "range not satisfiable";
      }
      else record {
        status = 206;
        content_type = content_type_of ref.format;
        content_range = some (part start (last_byte end total) total);
        payload = bytes body;
      }

module _ {S R : Type 0} (ms : MetaStore S) (sv : QueryService) (stores : Assoc (Backend R)) where
  unfoldable pub download_range : Option Identity → String → ℤ → ℤ → S → Reply R
  download_range caller id start end s =
      elim (Service.download_result ms sv stores caller id start (range_limit start end) s) [
        | err e ↦ write_error e
        | ok (body, ref) ↦ range_reply start end body ref
      ]

  unfoldable pub download_part : Option Identity → String → ℤ → ℤ → S → Reply R
  download_part caller id offset limit s =
      elim (Service.download_result ms sv stores caller id offset limit s) [
        | err e ↦ write_error e
        | ok (body, ref) ↦ whole_reply body ref
      ]

  -- Without a header `Range`.
  unfoldable pub download_parameters : Option Identity → DownloadRequest → S → Reply R
  download_parameters caller q s = elim (parameter q.offset_text) [
    | none ↦ write_validation_error "offset" "must be a non-negative integer"
    | some offset ↦ elim (parameter q.limit_text) [
      | none ↦ write_validation_error "limit" "must be a non-negative integer"
      | some limit ↦ download_part caller q.id offset limit s
    ]
  ]

  unfoldable pub download_header : Option Identity → DownloadRequest → Text → S → Reply R
  download_header caller q [] s = download_parameters caller q s
  download_header caller q (c ∷ cs) s = elim (parse_byte_range (c ∷ cs)) [
    | none ↦ write_status 416 "invalid Range header"
    | some (start, end) ↦ download_range caller q.id start end s
  ]

  unfoldable pub handle_download_result : Option Identity → DownloadRequest → S → Reply R
  handle_download_result caller q s =
      if q.id == ""
      then write_validation_error "id" "is required"
      else download_header caller q q.range_header s
