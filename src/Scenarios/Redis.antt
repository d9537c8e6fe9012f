-- ===== src/Scenarios/Redis.antt =====
-- Scenarios for the store in Redis.
use dbbridge.Base.{
  String, sym, ◌≡◌, ◌==◌, refl, none, some, [], ◌∷◌, ok, arith, if◌then◌else◌, true, not, ◌&&◌,
  contains,
}
use dbbridge.Base.Int.{pos}
use dbbridge.Domain.{QueryRecord, is_terminal}
use dbbridge.State.Contract.{IsRecordStore}
use dbbridge.State.Redis.Api.{Client, Codec}
use dbbridge.State.Redis.{
  redis_store, put_query, list_by_instance, query_key, instance_queries_key, write_query,
  index_commands,
}
use dbbridge.State.Redis.Contract.{find, redis_store-IsRecordStore}
use dbbridge.State.Redis.Index.{list_by_instance-put_query}
use dbbridge.Manager.Defs.{Sys}
use dbbridge.Manager.Reaper.{reap_stale_owners, recover_orphans}
use dbbridge.Manager.Reaper.Fence.{IsKept, reap_stale_owners-IsKept}
use dbbridge.Scenarios.Fixtures.{query, finished, manager}
use dbbridge.Scenarios.Server.{
  Server, client, client_laws, client_laws-value, codec, codec_laws, marshal-query,
}

-- Between two round trips of a call an hour passes.
abbrev an_hour_later : Server → Server
an_hour_later s = record s { clock = pos 3_600_000_000_000 }

redis_store-IsRecordStore_example :
    IsRecordStore
      (redis_store client codec an_hour_later)
      (find client codec an_hour_later client_laws codec_laws)
      an_hour_later
redis_store-IsRecordStore_example =
    redis_store-IsRecordStore client codec an_hour_later client_laws codec_laws

abbrev empty : Server
empty = record { texts = λ k. none; sets = λ k. []; clock = pos 0 }

abbrev with_query : Server
with_query = (client.exec (write_query query "1") empty).1

put_query-exec :
    {S : Type 0} (c : Client S) (j : Codec) (others : S → S) (rec : QueryRecord) (text : String)
    (s s' : S)
    → j.marshal rec ≡ ok text
    → c.exec (write_query rec text) s ≡ (ok tt, s')
    → put_query c j others rec s ≡ (ok tt, s')
unfolding put_query
put_query-exec c j others rec text s s' m h = ground (arith, m, h)

put-with_query : put_query client codec an_hour_later query empty ≡ (ok tt, with_query)
put-with_query =
    put_query-exec client codec an_hour_later query "1" empty with_query marshal-query refl

before_put : list_by_instance client codec an_hour_later "i1" empty ≡ ok []
unfolding list_by_instance
before_put = refl

after_put : list_by_instance client codec an_hour_later "i1" with_query ≡ ok ("q1" ∷ [])
unfolding list_by_instance write_query index_commands instance_queries_key is_terminal
after_put = refl

list_by_instance-put_query_example : contains "q1" ("q1" ∷ []) ≡ (
    if (query.owner_instance_id == "i1") && (query.id == "q1")
    then not (is_terminal query.state)
    else contains "q1" [])
list_by_instance-put_query_example =
    list_by_instance-put_query client codec an_hour_later client_laws query empty with_query "i1"
      "q1" [] ("q1" ∷ []) put-with_query before_put after_put

-- A server that keeps the finished query.
abbrev with_finished : Server
with_finished = record empty { texts = λ k. if k == "dbbridge:query:q1" then some "2" else none }

abbrev IsStored : Server → Type 0
IsStored =
    IsKept (redis_store client codec an_hour_later)
      (find client codec an_hour_later client_laws codec_laws) an_hour_later "q1" finished

stored : IsStored with_finished
unfolding query_key
stored = rw (client_laws-value "dbbridge:query:q1" with_finished) refl

abbrev sys : Sys Server
sys = record { manager = manager; store = with_finished }

kept_by_others : (s : Server) → IsStored s → IsStored (an_hour_later s)
unfolding query_key
kept_by_others s k =
    rw
      (
        client_laws-value "dbbridge:query:q1" (an_hour_later s),
        sym (client_laws-value "dbbridge:query:q1" s),
      )
      k

is_finished : is_terminal finished.state ≡ true
unfolding is_terminal
is_finished = refl

reap_stale_owners-IsKept_example :
    IsStored (reap_stale_owners (redis_store client codec an_hour_later) (pos 100) sys).store
    × IsStored (recover_orphans (redis_store client codec an_hour_later) (pos 100) sys).store
reap_stale_owners-IsKept_example =
    reap_stale_owners-IsKept (redis_store client codec an_hour_later)
      (find client codec an_hour_later client_laws codec_laws) an_hour_later
      (redis_store-IsRecordStore client codec an_hour_later client_laws codec_laws) "q1" finished
      is_finished kept_by_others (pos 100) sys stored
