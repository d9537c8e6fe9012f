-- ===== src/Transport/Rest/Hidden.antt =====
-- What the replies tell about a query of another caller.
use dbbridge.Base.{
  String, ◌==◌, ◌≡◌, refl, sym, ◌∙◌, ◌&&◌, if◌then◌else◌, Option-cases, Option, some, [], ◌∷◌, ok,
  err, arith, Bool-cases, inl, inr,
}
use dbbridge.Base.Assoc.{Assoc}
use dbbridge.Base.Int.{ℤ}
use dbbridge.Domain.{Error, QueryRecord, not_found_error, record_missing}
use dbbridge.Authn.{Identity}
use dbbridge.State.MetaStore.{MetaStore}
use dbbridge.Sqlguard.{Text}
use dbbridge.Manager.Defs.{Manager, Sys}
use dbbridge.Service.{
  QueryService, Backend, is_anonymous, authorized, get_query_status, get_query_stats,
  download_result, stop_query,
}
use dbbridge.Service.Access.{MaySee, authorized-hidden}
use dbbridge.Transport.Rest.ByteRange.{parse_byte_range}
use dbbridge.Transport.Rest.Status.{classify}
use dbbridge.Transport.Rest.Handlers.{
  Reply, write_status, write_error, write_validation_error, handle_get_query_status,
  handle_get_query_stats, handle_stop_query,
}
use dbbridge.Transport.Rest.Download.{
  DownloadRequest, parameter, range_limit, handle_download_result, download_header,
  download_parameters, download_range, download_part,
}

-- An error that is reported as the absence of the query.
abbrev IsAbsence : Error → Type 0
IsAbsence e = classify (some e) ≡ (404, "not found")

not_found_error-IsAbsence : (id : String) → IsAbsence (not_found_error "query" id)
unfolding classify
not_found_error-IsAbsence id = refl

record_missing-IsAbsence : IsAbsence record_missing
unfolding classify
record_missing-IsAbsence = refl

module _ {S : Type 0} (ms : MetaStore S) (sv : QueryService) (caller : Option Identity) where
  -- A store that has no such query, or one that the caller may not see.
  pub data IsOutOfReach (id : String) (s : S) : Type 0 where
    missing : ms.get_query id s ≡ err record_missing → IsOutOfReach id s
    hidden :
        (rec : QueryRecord)
        → ms.get_query id s ≡ ok rec
        → ¬ MaySee sv caller rec
        → IsOutOfReach id s

  -- The service refuses it as if it were absent.
  abbrev IsRefused : String → S → Type 0
  IsRefused id s = (e : Error) × (authorized ms sv caller id s ≡ err e) × IsAbsence e

  authorized-IsRefused : (id : String) (s : S) → IsOutOfReach id s → IsRefused id s
  unfolding authorized
  authorized-IsRefused id s (missing g) =
      elim (Bool-cases (sv.auth_required && is_anonymous caller)) [
        | inl a ↦ (not_found_error "query" id, ground (arith, g, a), not_found_error-IsAbsence id)
        | inr a ↦ (record_missing, ground (arith, g, a), record_missing-IsAbsence)
      ]
  authorized-IsRefused id s (hidden rec g n) = (
    not_found_error "query" id,
    authorized-hidden ms sv caller id s rec g n,
    not_found_error-IsAbsence id,
  )

  module _ {R : Type 0} (stores : Assoc (Backend R)) where
    abbrev not_found : Reply R
    not_found = write_status 404 "not found"

    abbrev absent_or : String → Reply R
    absent_or id = if id == "" then write_validation_error "id" "is required" else not_found

    status-absent :
        (id : String) (s : S)
        → IsRefused id s
        → handle_get_query_status ms sv caller id s ≡ absent_or id
    unfolding handle_get_query_status get_query_status write_error
    status-absent id s (e, a, n) = ground (arith, a, n)

    stats-absent :
        (id : String) (s : S)
        → IsRefused id s
        → handle_get_query_stats ms sv caller id s ≡ absent_or id
    unfolding handle_get_query_stats get_query_stats write_error
    stats-absent id s (e, a, n) = ground (arith, a, n)

    stop-absent :
        (id : String) (sys : Sys S)
        → IsRefused id sys.store
        → handle_stop_query ms sv caller id sys ≡ (absent_or id, sys)
    unfolding handle_stop_query stop_query write_error
    stop-absent id sys (e, a, n) = ground (arith, a, n)

    download_result-absent :
        (id : String) (offset limit : ℤ) (s : S) (e : Error)
        → authorized ms sv caller id s ≡ err e
        → download_result ms sv stores caller id offset limit s ≡ err e
    unfolding download_result
    download_result-absent id offset limit s e a = ground (arith, a)

    -- The reply of a download of a query that is out of reach: what the request alone decides.
    absent_part :
        (id : String) (offset limit : ℤ) (s : S)
        → IsRefused id s
        → download_part ms sv stores caller id offset limit s ≡ not_found
    unfolding download_part write_error
    absent_part id offset limit s (e, a, n) =
        ground (arith, n, download_result-absent id offset limit s e a)

    absent_range :
        (id : String) (start end : ℤ) (s : S)
        → IsRefused id s
        → download_range ms sv stores caller id start end s ≡ not_found
    unfolding download_range write_error
    absent_range id start end s (e, a, n) =
        ground (arith, n, download_result-absent id start (range_limit start end) s e a)

    download_parameters-absent :
        (q : DownloadRequest) (s s' : S)
        → IsRefused q.id s
        → IsRefused q.id s'
        → download_parameters ms sv stores caller q s ≡ download_parameters ms sv stores caller q s'
    unfolding download_parameters
    download_parameters-absent q s s' a b = elim (Option-cases (parameter q.offset_text)) [
      | inl n ↦ ground (arith, n)
      | inr (offset, o) ↦ elim (Option-cases (parameter q.limit_text)) [
        | inl n ↦ ground (arith, n, o)
        | inr (limit, l) ↦
            ground
              (arith, o, l, absent_part q.id offset limit s a, absent_part q.id offset limit s' b)
      ]
    ]

    download_header-absent :
        (q : DownloadRequest) (header : Text) (s s' : S)
        → IsRefused q.id s
        → IsRefused q.id s'
        → download_header ms sv stores caller q header s
          ≡ download_header ms sv stores caller q header s'
    unfolding download_header
    download_header-absent q [] s s' a b = download_parameters-absent q s s' a b
    download_header-absent q (c ∷ cs) s s' a b = elim (Option-cases (parse_byte_range (c ∷ cs))) [
      | inl n ↦ ground (arith, n)
      | inr ((start, end), o) ↦
          ground (arith, o, absent_range q.id start end s a, absent_range q.id start end s' b)
    ]

    -- No reply of the four handlers, to any request, tells a query that the caller may not see from one
    -- that is not there, and a refused stop changes nothing.
    pub handlers-IsOutOfReach :
        (id : String) (s s' : S) (m : Manager)
        → IsOutOfReach id s
        → IsOutOfReach id s'
        → (handle_get_query_status {R = R} ms sv caller id s
            ≡ handle_get_query_status ms sv caller id s')
          × (handle_get_query_stats {R = R} ms sv caller id s
              ≡ handle_get_query_stats ms sv caller id s')
          × (handle_stop_query {R = R} ms sv caller id (record { manager = m; store = s }) ≡ (
            (handle_stop_query ms sv caller id (record { manager = m; store = s' })).0,
            record { manager = m; store = s },
          ))
          × ((range_header offset_text limit_text : Text)
              → let q : DownloadRequest = record {
                id = id;
                range_header = range_header;
                offset_text = offset_text;
                limit_text = limit_text;
              } in
                handle_download_result ms sv stores caller q s
                ≡ handle_download_result ms sv stores caller q s')
    unfolding handle_download_result
    handlers-IsOutOfReach id s s' m a b =
        let x = authorized-IsRefused id s a in
        let y = authorized-IsRefused id s' b in
        (
          status-absent id s x ∙ sym (status-absent id s' y),
          stats-absent id s x ∙ sym (stats-absent id s' y),
          ground (
            arith,
            stop-absent id (record { manager = m; store = s }) x,
            stop-absent id (record { manager = m; store = s' }) y,
          ),
          λ range_header offset_text limit_text.
              let q : DownloadRequest = record {
                id = id;
                range_header = range_header;
                offset_text = offset_text;
                limit_text = limit_text;
              } in
              ground (arith, download_header-absent q range_header s s' x y),
        )
