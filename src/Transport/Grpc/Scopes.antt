-- ===== src/Transport/Grpc/Scopes.antt =====
-- internal/transport/grpcconnect/auth.go: the scope of a procedure, and the check of a call. A
-- procedure is known by the part of its name behind the last slash.
use dbbridge.Base.{String, none, some, List, [], ◌∷◌, Result, ok, err, if◌then◌else◌}
use dbbridge.Base.Assoc.{Assoc, lookup}
use dbbridge.Authn.{
  Identity, Token, AuthError, unauthenticated, forbidden, scope_read, scope_write, scope_admin,
  has_scope, authenticate,
}

abbrev pub procedure_scopes : Assoc String
procedure_scopes =
    ("StartQuery", scope_write)
    ∷ ("StopQuery", scope_write)
    ∷ ("GetQueryStatus", scope_read)
    ∷ ("GetQueryStats", scope_read)
    ∷ ("DownloadResult", scope_read)
    ∷ ("ListDatabases", scope_read)
    ∷ ("WatchQuery", scope_read)
    ∷ ("ReloadConfig", scope_admin)
    ∷ ("CanIBeStopped", scope_admin)
    ∷ []

unfoldable pub scope_for_procedure : String → String
scope_for_procedure procedure = elim (lookup procedure procedure_scopes) [
  | some s ↦ s
  | none ↦ scope_admin
]

unfoldable pub check : List Token → String → String → Result AuthError Identity
check tokens credential procedure = elim (authenticate tokens credential) [
  | err e ↦ err unauthenticated
  | ok id ↦ if has_scope id (scope_for_procedure procedure) then ok id else err forbidden
]
