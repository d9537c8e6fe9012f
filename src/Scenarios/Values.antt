-- ===== src/Scenarios/Values.antt =====
-- Scenarios for the values: states, options, the lifecycle, identities and tokens.
use dbbridge.Base.{String, ◌≡◌, refl, ◌↔◌, ◌⊎◌, inl, List, [], ◌∷◌, All, map, true, ok}
use dbbridge.Domain.{pending, succeeded, can_transition_to}
use dbbridge.Domain.Transitions.{Edge, can_transition_to_iff}
use dbbridge.Authn.{Identity, Token, TokenSpec, authenticate, new}
use dbbridge.Authn.Tokens.{IsDistinct, IsUsable, new-IsDistinct, authenticate-new}

can_transition_to_iff_example :
    (can_transition_to pending succeeded ≡ true) ↔ ((pending ≡ succeeded) ⊎ Edge pending succeeded)
can_transition_to_iff_example = can_transition_to_iff pending succeeded

abbrev alice : Identity
alice = record { subject = "alice"; scopes = "write" ∷ [] }

abbrev bob : String
bob = "bob"

abbrev specs : List TokenSpec
specs =
    record { subject = "alice"; value = "a"; value_env = ""; scopes = "write" ∷ [] }
    ∷ record { subject = "bob"; value = ""; value_env = "BOB"; scopes = "read" ∷ [] }
    ∷ []

abbrev getenv : String → String
getenv s = "b"

abbrev alice_token : Token
alice_token = record { value = "a"; subject = "alice"; scopes = "write" ∷ [] }

abbrev tokens : List Token
tokens = alice_token ∷ record { value = "b"; subject = "bob"; scopes = "read" ∷ [] } ∷ []

new-IsDistinct_example :
    IsDistinct tokens
    × All IsUsable tokens
    × (map (λ (t : Token). t.subject) tokens ≡ map (λ (c : TokenSpec). c.subject) specs)
    × (map (λ (t : Token). t.scopes) tokens ≡ map (λ (c : TokenSpec). c.scopes) specs)
unfolding new
new-IsDistinct_example = new-IsDistinct getenv specs tokens refl

authenticate-new_example :
    authenticate tokens "a" ≡ ok (record { subject = "alice"; scopes = "write" ∷ [] })
unfolding new
authenticate-new_example = authenticate-new getenv specs tokens refl alice_token (inl refl)
