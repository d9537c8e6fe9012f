-- ===== src/Service/Access.antt =====
-- Who reaches a query through the service.
use dbbridge.Base.{String, ◌≡◌, ◌↔◌, false, ◌&&◌, Option, ok, err, arith}
use dbbridge.Domain.{not_found_error, QueryRecord}
use dbbridge.Authn.{Identity, authorize_subject}
use dbbridge.State.MetaStore.{MetaStore}
use dbbridge.Service.{QueryService, is_anonymous, authorized}

-- Whether a caller may see a record: with credentials in force it has an identity, and the record's
-- subject is one it may act for.
abbrev pub MaySee : QueryService → Option Identity → QueryRecord → Type 0
MaySee sv caller rec =
    ((sv.auth_required && is_anonymous caller) ≡ false)
    × (authorize_subject caller rec.subject ≡ ok tt)

module _ {S : Type 0} (ms : MetaStore S) (sv : QueryService) (caller : Option Identity)
    (id : String) (s : S) where
  -- A caller reaches exactly the stored records that it may see.
  pub authorized_iff :
      (rec : QueryRecord)
      → (authorized ms sv caller id s ≡ ok rec)
        ↔ ((ms.get_query id s ≡ ok rec) × MaySee sv caller rec)
  unfolding authorized
  authorized_iff rec = ground arith

  pub authorized-hidden :
      (rec : QueryRecord)
      → ms.get_query id s ≡ ok rec
      → ¬ MaySee sv caller rec
      → authorized ms sv caller id s ≡ err (not_found_error "query" id)
  unfolding authorized
  authorized-hidden rec g n = ground (arith, g, n)
