-- ===== src/Authn/Access.antt =====
-- Who may do what: `Has` and `AuthorizeSubject`.
use dbbridge.Base.{String, ◌≡◌, ◌≢◌, ◌↔◌, ◌⊎◌, true, some, ok, arith, eq_iff, contains_iff, Member}
use dbbridge.Authn.{
  Identity, scope_read, scope_write, scope_admin, has_scope, is_admin, authorize_subject,
}

-- An identity has a scope exactly when it was given that scope or `admin`, or when the scope is
-- `read` and it was given `write`.
pub has_scope_iff :
    (i : Identity) (s : String)
    → (has_scope i s ≡ true) ↔ (
        Member s i.scopes
        ⊎ Member scope_admin i.scopes
        ⊎ ((s ≡ scope_read) × Member scope_write i.scopes))
unfolding has_scope
has_scope_iff i s = ground (
  arith,
  contains_iff scope_admin i.scopes,
  contains_iff scope_write i.scopes,
  contains_iff s i.scopes,
  eq_iff s scope_read,
)

-- A caller with an identity may act on a resource exactly when it has the scope `admin`, or when
-- the resource has an owner and the caller is that owner.
pub authorize_subject_iff :
    (id : Identity) (owner : String)
    → (authorize_subject (some id) owner ≡ ok tt)
      ↔ (Member scope_admin id.scopes ⊎ ((owner ≢ "") × (owner ≡ id.subject)))
unfolding authorize_subject is_admin
authorize_subject_iff id owner =
    ground (arith, contains_iff scope_admin id.scopes, eq_iff owner "", eq_iff owner id.subject)
