-- ===== src/Transport/Grpc/Agreement.antt =====
-- The two transports report one outcome alike.
use dbbridge.Base.{
  ℕ, String, ◌≡◌, ◌≢◌, refl, Option, some, Result, ok, err, arith, eq_iff, Result-cases, inl, inr,
}
use dbbridge.Domain.{
  Error, draining_error, validation_error, not_found_error, unavailable_error,
  resource_exhausted_error, record_missing, wrapped_error, failure,
}
use dbbridge.Authn.{Identity}
use dbbridge.State.MetaStore.{MetaStore}
use dbbridge.Manager.Defs.{Sys}
use dbbridge.Service as Service
use dbbridge.Service.{QueryService}
use dbbridge.Transport.Rest.Status.{cause, error_text, status_of, classify}
use dbbridge.Transport.Rest.Handlers.{
  write_error, handle_get_query_status, handle_get_query_stats, handle_stop_query,
}
use dbbridge.Transport.Grpc.{
  Code, invalid_argument, not_found, unavailable, resource_exhausted, internal, ConnectError,
  connect_code, connect_error, get_query_status, get_query_stats, stop_query,
}

-- The HTTP status of a code, as Connect documents it.
abbrev pub http_status : Code → ℕ
http_status invalid_argument = 400
http_status not_found = 404
http_status unavailable = 503
http_status resource_exhausted = 429
http_status internal = 500

connect_code-status_of :
    (e : Error) (text : String)
    → (http_status (connect_code e text).code, (connect_code e text).text) ≡ status_of e text
connect_code-status_of draining_error text = refl
connect_code-status_of (validation_error field reason) text = refl
connect_code-status_of (not_found_error resource id) text = refl
connect_code-status_of (unavailable_error resource) text = refl
connect_code-status_of (resource_exhausted_error reason) text = refl
connect_code-status_of record_missing text = refl
connect_code-status_of (wrapped_error t e) text = refl
connect_code-status_of (failure t) text = refl

connect_error-classify :
    (e : Error) → (http_status (connect_error e).code, (connect_error e).text) ≡ classify (some e)
unfolding connect_error classify
connect_error-classify e = connect_code-status_of (cause e) (error_text e)

-- The status of a response or of an error.
abbrev pub reply_status {ℓ} : {A : Type ℓ} → Result ConnectError A → ℕ
reply_status (ok a) = 200
reply_status (err x) = http_status x.code

module _ {S : Type 0} (R : Type 0) (ms : MetaStore S) (sv : QueryService) (caller : Option Identity)
    (id : String) where
  write_error-status :
      (e : Error) → (write_error {R = R} e).status ≡ http_status (connect_error e).code
  unfolding write_error
  write_error-status e = ground (arith, connect_error-classify e)

  -- For a query with an id, the status, the statistics and the stop of it are answered over HTTP with the
  -- status that Connect gives to the answer over gRPC, and a stop does the same over both.
  pub handlers-reply_status :
      (sys : Sys S)
      → id ≢ ""
      → ((handle_get_query_status {R = R} ms sv caller id sys.store).status
          ≡ reply_status (get_query_status ms sv caller id sys.store))
        × ((handle_get_query_stats {R = R} ms sv caller id sys.store).status
            ≡ reply_status (get_query_stats ms sv caller id sys.store))
        × ((handle_stop_query {R = R} ms sv caller id sys).0.status
            ≡ reply_status (stop_query ms sv caller id sys).0)
        × ((handle_stop_query {R = R} ms sv caller id sys).1 ≡ (stop_query ms sv caller id sys).1)
  unfolding handle_get_query_status handle_get_query_stats handle_stop_query get_query_status
      get_query_stats stop_query
  handlers-reply_status sys n = (
    elim (Result-cases (Service.get_query_status ms sv caller id sys.store)) [
      | inl (rec, a) ↦ ground (arith, a, n, eq_iff id "")
      | inr (e, a) ↦ ground (arith, a, n, eq_iff id "", write_error-status e)
    ],
    elim (Result-cases (Service.get_query_stats ms sv caller id sys.store)) [
      | inl (stats, a) ↦ ground (arith, a, n, eq_iff id "")
      | inr (e, a) ↦ ground (arith, a, n, eq_iff id "", write_error-status e)
    ],
    elim (Result-cases (Service.stop_query ms sv caller id sys).0) [
      | inl (u, a) ↦ ground (arith, a, n, eq_iff id "")
      | inr (e, a) ↦ ground (arith, a, n, eq_iff id "", write_error-status e)
    ],
    elim (Result-cases (Service.stop_query ms sv caller id sys).0) [
      | inl (u, a) ↦ ground (arith, a, n, eq_iff id "")
      | inr (e, a) ↦ ground (arith, a, n, eq_iff id "")
    ],
  )
