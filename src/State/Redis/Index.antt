-- ===== src/State/Redis/Index.antt =====
-- The sets of the queries that an instance runs, as the writes of the store in Redis keep them.
use Prim.Native.String.{◌++◌ as str_append}
use text.Mathlib.TextLemmas.{append_cancel_left, append_cancel_right, append_inj}
use dbbridge.Base.{
  String, ◌==◌, ◌≡◌, refl, sym, ap, ◌∙◌, Bool, false, not, ◌&&◌, List, contains, ok, arith, eq_iff,
  if◌then◌else◌, Result-cases, Bool-cases, inl, inr, eq_of_test, ne_of_test, test_of_ne,
}
use dbbridge.Domain.{QueryRecord, is_terminal}
use dbbridge.State.Redis.Api.{Client, Codec, ClientLaws, member_after}
use dbbridge.State.Redis.{
  instance_queries_key, databases_seen_key, write_query, index_commands, put_query,
  list_by_instance,
}

instance_queries_key_inj : (a b : String) → instance_queries_key a ≡ instance_queries_key b → a ≡ b
unfolding instance_queries_key
instance_queries_key_inj a b h =
    append_cancel_right a b ":queries" (
      append_cancel_left "dbbridge:instance:" (str_append a ":queries") (str_append b ":queries") h)

instance_queries_key_beq :
    (a b : String) → (instance_queries_key a == instance_queries_key b) ≡ (a == b)
instance_queries_key_beq a b = elim (Bool-cases (a == b)) [
  | inl t ↦
      (eq_iff (instance_queries_key a) (instance_queries_key b)).1
        (ap instance_queries_key (eq_of_test a b t))
      ∙ sym t
  | inr t ↦
      test_of_ne (instance_queries_key a) (instance_queries_key b)
        (λ e. ne_of_test a b t (instance_queries_key_inj a b e))
      ∙ sym t
]

databases_seen_key_apart : (a : String) → (databases_seen_key == instance_queries_key a) ≡ false
unfolding instance_queries_key
databases_seen_key_apart a = test_of_ne databases_seen_key (instance_queries_key a) (λ e.
    ne_of_test "dbbridge:databases" "dbbridge:instance:" refl
      (append_inj {s₁ = "dbbridge:databases"} {s₂ = "dbbridge:instance:"} {t₁ = ":seen"}
        {t₂ = str_append a ":queries"} e refl).0)

-- Whether a query is in the set of an instance after a write.
member_after-write_query :
    (rec : QueryRecord) (text instance_id id : String) (before : Bool)
    → member_after (instance_queries_key instance_id) id (write_query rec text) before ≡ (
        if (rec.owner_instance_id == instance_id) && (rec.id == id)
        then not (is_terminal rec.state)
        else before)
unfolding write_query index_commands
member_after-write_query rec text instance_id id before = ground (
  arith,
  instance_queries_key_beq rec.owner_instance_id instance_id,
  databases_seen_key_apart instance_id,
)

module _ {S : Type 0} (c : Client S) (j : Codec) (others : S → S) (laws : ClientLaws c) where
  -- After a record is written its owner lists the query exactly while it is not terminal, and the
  -- lists are otherwise as before.
  pub list_by_instance-put_query :
      (rec : QueryRecord) (s s' : S) (instance_id id : String) (before after : List String)
      → put_query c j others rec s ≡ (ok tt, s')
      → list_by_instance c j others instance_id s ≡ ok before
      → list_by_instance c j others instance_id s' ≡ ok after
      → contains id after ≡ (
          if (rec.owner_instance_id == instance_id) && (rec.id == id)
          then not (is_terminal rec.state)
          else contains id before)
  unfolding put_query list_by_instance
  list_by_instance-put_query rec s s' instance_id id before after h b a =
      let k = instance_queries_key instance_id in
      elim (Result-cases (j.marshal rec)) [
        | inr (e, m) ↦ ground (arith, h)
        | inl (text, m) ↦ ground (
          arith,
          h,
          laws.exec_member (write_query rec text) s s' k id,
          member_after-write_query rec text instance_id id (laws.member k id s),
          laws.smembers_member k id s before,
          laws.smembers_member k id s' after,
        )
      ]
