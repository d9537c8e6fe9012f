-- ===== src/Scenarios/Service.antt =====
-- Scenarios for the service and its HTTP API.
use dbbridge.Base.{
  ◌++◌, ℕ, ◌≡◌, ◌<◌, refl, true, false, Option, none, some, List, [], ◌∷◌, length, ok, arith,
  ne_of_test,
}
use dbbridge.Base.Int.{pos}
use dbbridge.Base.Assoc.{Assoc, lookup}
use dbbridge.Domain.{QueryRecord, ResultRef}
use dbbridge.Authn.{Identity, authorize_subject, is_admin}
use dbbridge.Lifecycle.{serving}
use dbbridge.Sqlguard.{codes}
use dbbridge.State.Memory.{Memory, memory_store, get_query, with_lease}
use dbbridge.Service.{QueryService, Body, Backend, download_result}
use dbbridge.Service.Access.{MaySee}
use dbbridge.Service.Section.{eof}
use dbbridge.Service.Section.Delivery.{range}
use dbbridge.Service.Download.{serve, serve-download_result}
use dbbridge.Transport.Rest.Handlers.{
  handle_get_query_status, handle_get_query_stats, handle_stop_query,
}
use dbbridge.Transport.Rest.Download.{DownloadRequest, handle_download_result}
use dbbridge.Transport.Rest.ByteRange.{parse_byte_range}
use dbbridge.Transport.Rest.Hidden.{IsOutOfReach, missing, hidden, handlers-IsOutOfReach}
use dbbridge.Transport.Rest.Ranges.{IsPartial, handle_download_result-IsPartial}
use dbbridge.Transport.Rest.Formats.{range_text, end_value, parse_byte_range-range_text}
use dbbridge.Transport.Grpc as Grpc
use dbbridge.Transport.Grpc.{ConnectError}
use dbbridge.Transport.Grpc.Chunks.{StreamLaws, download_result-range}
use dbbridge.Transport.Grpc.Agreement.{reply_status, handlers-reply_status}
use dbbridge.Scenarios.Fixtures.{query, finished, finished_query, stored_query, ref, manager}
use dbbridge.Scenarios.Reading.{reader, reader_laws, reader_laws-rest, steady}

-- A stored object, and a store with the finished query that it belongs to.
abbrev object : List ℕ
object = 10 ∷ 20 ∷ 30 ∷ 40 ∷ 50 ∷ []

abbrev object_ref : ResultRef
object_ref = record ref { size_bytes = pos 5 }

abbrev downloaded : QueryRecord
downloaded = record finished { result = some object_ref }

abbrev with_object : Memory
with_object = record finished_query { queries = ("q1", downloaded) ∷ [] }

abbrev backend : Backend (List ℕ)
backend r = ok object

abbrev backends : Assoc (Backend (List ℕ))
backends = ("fs", backend) ∷ []

abbrev open_service : QueryService
open_service = record { lifecycle = serving; auth_required = false }

abbrev found_record : QueryRecord
found_record = record downloaded { lease_deadline = pos 0 }

found : get_query "q1" with_object ≡ ok found_record
unfolding get_query with_lease lookup
found = refl

may_see : MaySee open_service none found_record
unfolding authorize_subject is_admin
may_see = (refl, refl)

opened : lookup "fs" backends ≡ some backend
unfolding lookup
opened = refl

fits : (n : ℕ) → 5 < n → length (reader_laws.rest object) < n
fits n h = rw (reader_laws-rest object) h

serve-download_result_example :
    (body : Body (List ℕ)) × (download_result memory_store open_service backends none "q1"
        (pos 1)
        (pos 2)
        with_object
      ≡ ok (body, object_ref))
    × (serve reader 6 4 body ≡ (range (pos 1) (pos 2) (reader_laws.rest object), some eof))
serve-download_result_example =
    serve-download_result reader reader_laws steady memory_store open_service backends none "q1"
      with_object found_record object_ref backend object (pos 1) (pos 2) 6 4 found may_see refl refl
      opened refl (omega arith) (fits 6 (omega arith))

abbrev asked : DownloadRequest
asked = record { id = "q1"; range_header = codes "bytes=1-2"; offset_text = []; limit_text = [] }

asked_range : parse_byte_range (codes "bytes=1-2") ≡ some (pos 1, pos 2)
asked_range = parse_byte_range-range_text 1 (some 2) (omega arith, omega arith)

size_recorded : pos 5 ≡ pos (length (reader_laws.rest object))
size_recorded = rw (reader_laws-rest object) refl

handle_download_result-IsPartial_example :
    IsPartial reader reader_laws steady memory_store open_service backends none 1
      (pos 2)
      6
      4
      (reader_laws.rest object)
      (handle_download_result memory_store open_service backends none asked with_object)
handle_download_result-IsPartial_example =
    handle_download_result-IsPartial reader reader_laws steady memory_store open_service backends
      none asked 1 (pos 2) with_object found_record object_ref backend object 6 4
      (ne_of_test "q1" "" refl) asked_range found may_see refl refl size_recorded opened refl
      (fits 9223372036854775808 (omega arith)) (omega arith) (fits 6 (omega arith))

parse_byte_range-range_text_example :
    parse_byte_range (range_text 100 (some 199)) ≡ some (pos 100, end_value (some 199))
parse_byte_range-range_text_example =
    parse_byte_range-range_text 100 (some 199) (omega arith, omega arith)

-- With credentials in force a caller sees its own queries only.
abbrev closed_service : QueryService
closed_service = record { lifecycle = serving; auth_required = true }

abbrev stranger : Option Identity
stranger = some (record { subject = "bob"; scopes = "read" ∷ [] })

abbrev others_query : QueryRecord
others_query = record query { subject = "alice" }

abbrev with_others : Memory
with_others = record stored_query { queries = ("q1", others_query) ∷ []; leases = [] }

abbrev without : Memory
without = record stored_query { queries = []; leases = [] }

out_of_reach : IsOutOfReach memory_store closed_service stranger "q1" with_others
unfolding get_query with_lease lookup authorize_subject is_admin
out_of_reach = hidden (record others_query { lease_deadline = pos 0 }) refl (λ m. ground (arith, m))

not_there : IsOutOfReach memory_store closed_service stranger "q1" without
unfolding get_query lookup
not_there = missing refl

handlers-IsOutOfReach_example :
    (handle_get_query_status {R = List ℕ} memory_store closed_service stranger "q1" with_others
      ≡ handle_get_query_status memory_store closed_service stranger "q1" without)
    × (handle_get_query_stats {R = List ℕ} memory_store closed_service stranger "q1" with_others
        ≡ handle_get_query_stats memory_store closed_service stranger "q1" without)
    × (handle_stop_query {R = List ℕ} memory_store closed_service stranger "q1"
          (record { manager = manager; store = with_others })
        ≡ (
          (handle_stop_query memory_store closed_service stranger "q1"
              (record { manager = manager; store = without })).0,
          record { manager = manager; store = with_others },
        ))
    × ((range_header offset_text limit_text : List ℕ)
        → let q : DownloadRequest = record {
          id = "q1";
          range_header = range_header;
          offset_text = offset_text;
          limit_text = limit_text;
        } in
          handle_download_result memory_store closed_service backends stranger q with_others
          ≡ handle_download_result memory_store closed_service backends stranger q without)
handlers-IsOutOfReach_example =
    handlers-IsOutOfReach memory_store closed_service stranger backends "q1" with_others without
      manager out_of_reach not_there

-- A stream that takes every chunk.
abbrev take_chunk : List ℕ → List ℕ → Option ConnectError × List ℕ
take_chunk chunk w = (none, w ++ chunk)

stream_laws : StreamLaws take_chunk
stream_laws = record { sent = λ w. w; send_takes = λ chunk w. (refl, refl) }

download_result-range_example :
    let (e, w') =
      Grpc.download_result reader take_chunk memory_store open_service backends 6 none "q1"
        (pos 1)
        (pos 2)
        with_object
        [] in
    (e ≡ none)
    × (stream_laws.sent w' ≡ stream_laws.sent [] ++ range (pos 1) (pos 2) (reader_laws.rest object))
download_result-range_example =
    download_result-range reader reader_laws steady take_chunk stream_laws memory_store open_service
      backends none "q1" with_object found_record object_ref backend object (pos 1) (pos 2) 6 []
      found may_see refl refl opened refl (fits 6 (omega arith))

handlers-reply_status_example :
    ((handle_get_query_status {R = List ℕ} memory_store open_service none "q1" with_object).status
      ≡ reply_status (Grpc.get_query_status memory_store open_service none "q1" with_object))
    × ((handle_get_query_stats {R = List ℕ} memory_store open_service none "q1" with_object).status
        ≡ reply_status (Grpc.get_query_stats memory_store open_service none "q1" with_object))
    × ((handle_stop_query {R = List ℕ} memory_store open_service none "q1"
          (record { manager = manager; store = with_object })).0.status
        ≡ reply_status
            (Grpc.stop_query memory_store open_service none "q1"
              (record { manager = manager; store = with_object })).0)
    × ((handle_stop_query {R = List ℕ} memory_store open_service none "q1"
          (record { manager = manager; store = with_object })).1
        ≡ (Grpc.stop_query memory_store open_service none "q1"
            (record { manager = manager; store = with_object })).1)
handlers-reply_status_example =
    handlers-reply_status (List ℕ) memory_store open_service none "q1"
      (record { manager = manager; store = with_object }) (ne_of_test "q1" "" refl)
