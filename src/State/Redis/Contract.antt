-- ===== src/State/Redis/Contract.antt =====
-- The store in Redis keeps the contract of the records.
use text.Mathlib.TextLemmas.{append_cancel_left, append_inj}
use dbbridge.Base.{
  String, ◌==◌, ◌≡◌, refl, sym, ap, ◌∙◌, Option, none, some, List, ◌∷◌, ok, err, true, false, arith,
  eq_iff, if◌then◌else◌, Option-cases, Result-cases, Bool-cases, inl, inr, ◌⊎◌, eq_of_test,
  ne_of_test, test_of_ne,
}
use dbbridge.Domain.{Error, QueryRecord, QueryState, contains_state, record_missing}
use dbbridge.State.Contract.{IsExpected, IsRecordStore, kept, written}
use dbbridge.State.Redis.Api.{
  Client, Codec, ClientLaws, CodecLaws, Commit, committed, aborted, commit_failed, value_after, del,
}
use dbbridge.State.Redis.{
  query_key, lease_key, write_query, index_commands, redis_store, put_query, get_query,
  update_query_if_state, update_found, try_commit, delete_query, decode, forget_commands,
}

query_key_inj : (a b : String) → query_key a ≡ query_key b → a ≡ b
unfolding query_key
query_key_inj a b h = append_cancel_left "dbbridge:query:" a b h

query_key_beq : (a b : String) → (query_key a == query_key b) ≡ (a == b)
query_key_beq a b = elim (Bool-cases (a == b)) [
  | inl t ↦ (eq_iff (query_key a) (query_key b)).1 (ap query_key (eq_of_test a b t)) ∙ sym t
  | inr t ↦
      test_of_ne (query_key a) (query_key b) (λ e. ne_of_test a b t (query_key_inj a b e)) ∙ sym t
]

lease_key_apart : (a b : String) → (lease_key a == query_key b) ≡ false
unfolding lease_key query_key
lease_key_apart a b = test_of_ne (lease_key a) (query_key b) (λ e.
    ne_of_test "dbbridge:lease:" "dbbridge:query:" refl
      (append_inj {s₁ = "dbbridge:lease:"} {s₂ = "dbbridge:query:"} e refl).0)

-- What a write does to the text at the key of a query.
value_after-write_query :
    (rec : QueryRecord) (text id : String) (before : Option String)
    → value_after (query_key id) (write_query rec text) before
      ≡ (if rec.id == id then some text else before)
unfolding write_query index_commands
value_after-write_query rec text id before =
    ground (arith, query_key_beq rec.id id, lease_key_apart rec.id id)

abbrev decoded : Codec → Option String → Option QueryRecord
decoded j none = none
decoded j (some text) = j.unmarshal text

lost_error :
    (r : Commit) → ((e : Error) × (r ≡ commit_failed e)) ⊎ ((r ≡ committed) ⊎ (r ≡ aborted))
lost_error committed = inr (inl refl)
lost_error aborted = inr (inr refl)
lost_error (commit_failed e) = inl (e, refl)

module _ {S : Type 0} (c : Client S) (j : Codec) (others : S → S) (laws : ClientLaws c)
    (codec : CodecLaws j) where
  abbrev pub find : String → S → Option QueryRecord
  find id s = decoded j (laws.value (query_key id) s)

  decoded-write_query :
      (rec : QueryRecord) (text id : String) (before : Option String)
      → j.marshal rec ≡ ok text
      → decoded j (value_after (query_key id) (write_query rec text) before)
        ≡ written rec id (decoded j before)
  decoded-write_query rec text id before m =
      ground (arith, value_after-write_query rec text id before, codec.unmarshal-marshal rec text m)

  redis-put_written :
      (rec : QueryRecord) (s s' : S) (id : String)
      → put_query c j others rec s ≡ (ok tt, s')
      → find id s' ≡ written rec id (find id s)
  unfolding put_query
  redis-put_written rec s s' id h = elim (Result-cases (j.marshal rec)) [
    | inr (e, m) ↦ ground (arith, h)
    | inl (text, m) ↦ ground (
      arith,
      h,
      laws.exec_value (write_query rec text) s s' (query_key id),
      decoded-write_query rec text id (laws.value (query_key id) s) m,
    )
  ]

  redis-get_found :
      (id : String) (s : S) (rec : QueryRecord)
      → get_query c j others id s ≡ ok rec
      → (q : QueryRecord) × (find id s ≡ some q) × (kept rec ≡ kept q)
  unfolding get_query decode
  redis-get_found id s rec h = elim (Result-cases (c.get_ttl (query_key id) (lease_key id) s)) [
    | inr (e, g) ↦ ground (arith, h)
    | inl ((text, ttl), g) ↦ elim (Option-cases text) [
      | inl n ↦ ground (arith, h)
      | inr (t, n) ↦ elim (Option-cases (j.unmarshal t)) [
        | inl u ↦ ground (arith, h)
        | inr (q, u) ↦ (
          q,
          ground (arith, laws.get_ttl_value (query_key id) (lease_key id) s text ttl g),
          ground (arith, h),
        )
      ]
    ]
  ]

  redis-get_missing :
      (id : String) (s : S) → get_query c j others id s ≡ err record_missing → find id s ≡ none
  unfolding get_query decode
  redis-get_missing id s h = elim (Result-cases (c.get_ttl (query_key id) (lease_key id) s)) [
    | inr (e, g) ↦ ground (arith, h)
    | inl ((text, ttl), g) ↦
        ground (arith, h, laws.get_ttl_value (query_key id) (lease_key id) s text ttl g)
  ]

  decoded-delete :
      (gone id : String) (s : S) (before : Option String)
      → decoded j (
          value_after
            (query_key id)
            (del (query_key gone)
              ∷ (del (lease_key gone)
                  ∷ forget_commands c j others gone (get_query c j others gone s)))
            before)
        ≡ (if gone == id then none else decoded j before)
  decoded-delete gone id s before = ground (arith, query_key_beq gone id, lease_key_apart gone id)

  redis-delete_removed :
      (gone : String) (s s' : S) (id : String)
      → delete_query c j others gone s ≡ (ok tt, s')
      → find id s' ≡ (if gone == id then none else find id (others s))
  unfolding delete_query
  redis-delete_removed gone s s' id h = ground (
    arith,
    h,
    laws.exec_value
        (del (query_key gone)
          ∷ (del (lease_key gone) ∷ forget_commands c j others gone (get_query c j others gone s)))
        (others s) s' (query_key id),
    decoded-delete gone id s (laws.value (query_key id) (others s)),
  )

  -- A write that goes through, with the text that was read under the watch.
  try_commit-written :
      (rec : QueryRecord) (text found : String) (current : QueryRecord) (s s' : S) (id : String)
      → j.marshal rec ≡ ok text
      → laws.value (query_key rec.id) s ≡ some found
      → j.unmarshal found ≡ some current
      → try_commit c j others rec text s ≡ (ok true, s')
      → (find rec.id (others s) ≡ some current) × (find id s' ≡ written rec id (find id (others s)))
  unfolding try_commit
  try_commit-written rec text found current s s' id m v u h = ground (
    arith,
    h,
    laws.commit_watched (query_key rec.id) s (others s) s' (write_query rec text),
    laws.commit_value (query_key rec.id) s (others s) s' (write_query rec text) (query_key id),
    decoded-write_query rec text id (laws.value (query_key id) (others s)) m,
  )

  try_commit-refused :
      (rec : QueryRecord) (text : String) (s s' : S) (id : String)
      → try_commit c j others rec text s ≡ (ok false, s')
      → find id s' ≡ find id (others s)
  unfolding try_commit
  try_commit-refused rec text s s' id h = ground (
    arith,
    h,
    laws.abort_value (query_key rec.id) s (others s) s' (write_query rec text) (query_key id),
  )

  redis-update_written :
      (rec : QueryRecord) (expected : List QueryState) (s s' : S) (id : String)
      → update_query_if_state c j others rec expected s ≡ (ok true, s')
      → IsExpected (find rec.id (others s)) expected
        × (find id s' ≡ written rec id (find id (others s)))
  unfolding update_query_if_state update_found
  redis-update_written rec expected s s' id h = elim (Result-cases (j.marshal rec)) [
    | inr (e, m) ↦ ground (arith, h)
    | inl (text, m) ↦ elim (Result-cases (c.get (query_key rec.id) s)) [
      | inr (e, g) ↦ ground (arith, h)
      | inl (v, g) ↦ elim (Option-cases v) [
        | inl n ↦ ground (arith, h)
        | inr (found, n) ↦ elim (Option-cases (j.unmarshal found)) [
          | inl u ↦ ground (arith, h)
          | inr (current, u) ↦ elim (Bool-cases (contains_state expected current.state)) [
            | inr t ↦ ground (arith, h)
            | inl t ↦
                let w =
                  try_commit-written rec text found current s s' id m
                    (sym (laws.get_value (query_key rec.id) s v g) ∙ n) u (ground (arith, h)) in
                ((current, w.0, t), w.1)
          ]
        ]
      ]
    ]
  ]

  redis-update_refused :
      (rec : QueryRecord) (expected : List QueryState) (s s' : S) (id : String)
      → update_query_if_state c j others rec expected s ≡ (ok false, s')
      → (find id s' ≡ find id s) ⊎ (find id s' ≡ find id (others s))
  unfolding update_query_if_state update_found
  redis-update_refused rec expected s s' id h = elim (Result-cases (j.marshal rec)) [
    | inr (e, m) ↦ ground (arith, h)
    | inl (text, m) ↦ elim (Result-cases (c.get (query_key rec.id) s)) [
      | inr (e, g) ↦ ground (arith, h)
      | inl (v, g) ↦ ground (arith, h, try_commit-refused rec text s s' id)
    ]
  ]

  try_commit-failed :
      (rec : QueryRecord) (text found : String) (current : QueryRecord) (s s' : S) (e : Error)
      (id : String)
      → j.marshal rec ≡ ok text
      → laws.value (query_key rec.id) s ≡ some found
      → j.unmarshal found ≡ some current
      → try_commit c j others rec text s ≡ (err e, s')
      → (find id s' ≡ find id (others s))
        ⊎ ((find rec.id (others s) ≡ some current)
            × (find id s' ≡ written rec id (find id (others s))))
  unfolding try_commit
  try_commit-failed rec text found current s s' e id m v u h =
      let r = c.commit (query_key rec.id) s (write_query rec text) (others s) in
      elim (lost_error r.0) [
        | inr n ↦ ground (arith, h, n)
        | inl (x, n) ↦ ground (
          arith,
          h,
          n,
          laws.commit_lost (query_key rec.id) s (others s) s' (write_query rec text) x
              (query_key id),
          decoded-write_query rec text id (laws.value (query_key id) (others s)) m,
        )
      ]

  redis-update_failed :
      (rec : QueryRecord) (expected : List QueryState) (s s' : S) (e : Error) (id : String)
      → update_query_if_state c j others rec expected s ≡ (err e, s')
      → (find id s' ≡ find id s)
        ⊎ ((find id s' ≡ find id (others s))
            ⊎ (IsExpected (find rec.id (others s)) expected
                × (find id s' ≡ written rec id (find id (others s)))))
  unfolding update_query_if_state update_found
  redis-update_failed rec expected s s' e id h = elim (Result-cases (j.marshal rec)) [
    | inr (e', m) ↦ ground (arith, h)
    | inl (text, m) ↦ elim (Result-cases (c.get (query_key rec.id) s)) [
      | inr (e', g) ↦ ground (arith, h)
      | inl (v, g) ↦ elim (Option-cases v) [
        | inl n ↦ ground (arith, h)
        | inr (found, n) ↦ elim (Option-cases (j.unmarshal found)) [
          | inl u ↦ ground (arith, h)
          | inr (current, u) ↦ elim (Bool-cases (contains_state expected current.state)) [
            | inr t ↦ ground (arith, h)
            | inl t ↦
                elim (try_commit-failed rec text found current s s' e id m
                  (sym (laws.get_value (query_key rec.id) s v g) ∙ n) u (ground (arith, h))) [
                    | inl l ↦ inr (inl l)
                    | inr (x, w) ↦ inr (inr ((current, x, t), w))
                  ]
          ]
        ]
      ]
    ]
  ]

-- The store in Redis refines the contract of the records, whatever other clients do between the
-- round trips of a call.
pub redis_store-IsRecordStore :
    {S : Type 0} (c : Client S) (j : Codec) (others : S → S) (laws : ClientLaws c)
    (codec : CodecLaws j)
    → IsRecordStore (redis_store c j others) (find c j others laws codec) others
redis_store-IsRecordStore c j others laws codec = record {
  put_written = redis-put_written c j others laws codec;
  get_found = redis-get_found c j others laws codec;
  get_missing = redis-get_missing c j others laws codec;
  update_written = redis-update_written c j others laws codec;
  update_refused = redis-update_refused c j others laws codec;
  update_failed = redis-update_failed c j others laws codec;
  delete_removed = redis-delete_removed c j others laws codec;
}
