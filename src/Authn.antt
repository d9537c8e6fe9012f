-- ===== src/Authn.antt =====
-- internal/authn/authn.go: bearer tokens, scopes and the identity of a caller. The environment of
-- the process is an argument; a request's context is the identity that it carries, if any.
pub mod Tokens
pub mod Access
use dbbridge.Base.{
  ℕ, suc, ◌+◌, String, ◌==◌, Bool, true, false, not, ◌&&◌, ◌||◌, Option, none, some, List, [], ◌∷◌,
  Result, ok, err, ◌>>=◌, contains, if◌then◌else◌,
}

abbrev pub scope_read : String
scope_read = "read"

abbrev pub scope_write : String
scope_write = "write"

abbrev pub scope_admin : String
scope_admin = "admin"

abbrev pub valid_scopes : List String
valid_scopes = scope_read ∷ scope_write ∷ scope_admin ∷ []

-- `ErrUnauthenticated` and `ErrForbidden`
pub data AuthError : Type 0 where
  unauthenticated forbidden : AuthError

pub record TokenSpec : Type 0 where
  pub subject : String
  pub value : String
  pub value_env : String
  pub scopes : List String

pub record Token : Type 0 where
  pub value : String
  pub subject : String
  pub scopes : List String

pub record Identity : Type 0 where
  pub subject : String
  pub scopes : List String

unfoldable pub has_scope : Identity → String → Bool
has_scope i s =
    if contains scope_admin i.scopes
    then true
    else if (s == scope_read) && contains scope_write i.scopes
    then true
    else contains s i.scopes

unfoldable pub is_admin : Identity → Bool
is_admin i = contains scope_admin i.scopes

-- The errors of `New`, with the index of the token.
pub data ConfigError : Type 0 where
  no_tokens : ConfigError
  env_empty no_value duplicate_value no_subject no_scopes : ℕ → ConfigError
  unknown_scope : ℕ → String → ConfigError

token_value : (String → String) → ℕ → TokenSpec → Result ConfigError String
token_value getenv i spec =
    if spec.value_env == ""
    then ok spec.value
    else if getenv spec.value_env == ""
    then err (env_empty i)
    else ok (getenv spec.value_env)

-- The inner loop over `spec.Scopes`.
parse_scopes : ℕ → List String → Result ConfigError (List String)
parse_scopes i [] = ok []
parse_scopes i (raw ∷ rest) =
    if not (contains raw valid_scopes)
    then err (unknown_scope i raw)
    else (parse_scopes i rest >>= λ scopes. ok (raw ∷ scopes))

no_entries : List String → Bool
no_entries [] = true
no_entries (x ∷ xs) = false

-- The body of the loop in `New`; `seen` holds the values of the tokens before.
parse_token : (String → String) → ℕ → List String → TokenSpec → Result ConfigError Token
unfolding token_value no_entries
parse_token getenv i seen spec = token_value getenv i spec >>= λ value.
    if value == ""
    then err (no_value i)
    else if contains value seen
    then err (duplicate_value i)
    else if spec.subject == ""
    then err (no_subject i)
    else if no_entries spec.scopes
    then err (no_scopes i)
    else (parse_scopes i spec.scopes >>= λ scopes.
        ok (record { value = value; subject = spec.subject; scopes = scopes }))

pub parse_tokens :
    (String → String) → ℕ → List String → List TokenSpec → Result ConfigError (List Token)
parse_tokens getenv i seen [] = ok []
parse_tokens getenv i seen (spec ∷ specs) = parse_token getenv i seen spec >>= λ t.
    parse_tokens getenv (suc i) (t.value ∷ seen) specs >>= λ ts. ok (t ∷ ts)

-- `New`
unfoldable pub new : (String → String) → List TokenSpec → Result ConfigError (List Token)
unfolding parse_tokens parse_token parse_scopes
new getenv [] = err no_tokens
new getenv (spec ∷ specs) = parse_tokens getenv 0 [] (spec ∷ specs)

-- The loop of `Authenticate`: every token is compared, and the last match counts.
pub last_match : Option Token → List Token → String → Option Token
last_match found [] given = found
last_match found (t ∷ ts) given = last_match (if t.value == given then some t else found) ts given

identify : Option Token → Result AuthError Identity
identify none = err unauthenticated
identify (some t) = ok (record { subject = t.subject; scopes = t.scopes })

unfoldable pub authenticate : List Token → String → Result AuthError Identity
unfolding last_match identify
authenticate tokens credential = identify (last_match none tokens credential)

-- `AuthorizeSubject`
unfoldable pub authorize_subject : Option Identity → String → Result AuthError (Unit {0})
unfolding is_admin
authorize_subject none owner = ok tt
authorize_subject (some id) owner =
    if is_admin id
    then ok tt
    else if not (owner == "") && (owner == id.subject)
    then ok tt
    else err forbidden

-- `SubjectFromContext`
unfoldable pub subject_from_context : Option Identity → String
subject_from_context none = ""
subject_from_context (some id) = id.subject
