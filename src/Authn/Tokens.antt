-- ===== src/Authn/Tokens.antt =====
-- What `New` accepts, and what `Authenticate` makes of it.
use dbbridge.Base.{
  ℕ, suc, String, ◌==◌, ◌≡◌, refl, ◌≢◌, ◌⊎◌, inl, inr, false, Option, none, some, List, [], ◌∷◌, ok,
  arith, eq_iff, contains, contains_iff, Member, All, Any, Bool-cases, Result-cases, if◌then◌else◌,
  map, test_of_ne, eq_refl, subst, All-map, Any-map, Option-cases, eq_of_test, some_inj,
}
use dbbridge.Authn.{
  TokenSpec, Token, Identity, valid_scopes, parse_scopes, parse_token, parse_tokens, new,
  last_match, identify, authenticate,
}

-- What `New` checks of one token.
pub record IsUsable (t : Token) : Type 0 where
  pub has_value : t.value ≢ ""
  pub has_subject : t.subject ≢ ""
  pub scopes_known : All (λ s. Member s valid_scopes) t.scopes

-- No two tokens of the list have one value.
abbrev pub IsDistinct : List Token → Type 0
IsDistinct [] = Unit
IsDistinct (t ∷ ts) = All (λ u. u.value ≢ t.value) ts × IsDistinct ts

parse_scopes_known :
    (i : ℕ) (raw scopes : List String)
    → parse_scopes i raw ≡ ok scopes
    → (scopes ≡ raw) × All (λ s. Member s valid_scopes) scopes
unfolding parse_scopes
parse_scopes_known i [] scopes h = ground arith
parse_scopes_known i (s ∷ raw) scopes h = elim (Result-cases (parse_scopes i raw)) [
  | inl (rest, e) ↦ ground (arith, contains_iff s valid_scopes, parse_scopes_known i raw rest e)
  | inr (x, e) ↦ ground arith
]

-- What a token that `New` makes has to do with its spec and the values seen before.
record Parsed (spec : TokenSpec) (seen : List String) (t : Token) : Type 0 where
  usable : IsUsable t
  fresh : contains t.value seen ≡ false
  subject_kept : t.subject ≡ spec.subject
  scopes_kept : t.scopes ≡ spec.scopes

parse_token-Parsed :
    (getenv : String → String) (i : ℕ) (seen : List String) (spec : TokenSpec) (t : Token)
    → parse_token getenv i seen spec ≡ ok t
    → Parsed spec seen t
unfolding parse_token
parse_token-Parsed getenv i seen spec t h = ground (
  arith,
  parse_scopes_known i spec.scopes t.scopes,
  eq_iff spec.subject "",
  eq_iff spec.value_env "",
  eq_iff spec.value "",
  eq_iff (getenv spec.value_env) "",
)

ne_of_contains : (a b : String) (seen : List String) → contains a (b ∷ seen) ≡ false → a ≢ b
ne_of_contains a b seen h = ground (arith, eq_iff a b)

contains_tail :
    (a b : String) (seen : List String) → contains a (b ∷ seen) ≡ false → contains a seen ≡ false
contains_tail a b seen h = ground arith

out_of_bind :
    (getenv : String → String) (i : ℕ) (seen : List String) (spec : TokenSpec)
    (specs : List TokenSpec) (ts : List Token) (t : Token) (rest : List Token)
    → parse_tokens getenv i seen (spec ∷ specs) ≡ ok ts
    → parse_token getenv i seen spec ≡ ok t
    → parse_tokens getenv (suc i) (t.value ∷ seen) specs ≡ ok rest
    → (t ∷ rest) ≡ ts
unfolding parse_tokens
out_of_bind getenv i seen spec specs ts t rest h e d = ground arith

IsDistinct-parse_tokens :
    (getenv : String → String) (i : ℕ) (seen : List String) (specs : List TokenSpec)
    (ts : List Token)
    → parse_tokens getenv i seen specs ≡ ok ts
    → IsDistinct ts
      × All (λ t. contains t.value seen ≡ false) ts
      × All IsUsable ts
      × (map (λ (t : Token). t.subject) ts ≡ map (λ (c : TokenSpec). c.subject) specs)
      × (map (λ (t : Token). t.scopes) ts ≡ map (λ (c : TokenSpec). c.scopes) specs)
unfolding parse_tokens
IsDistinct-parse_tokens getenv i seen [] ts h = ground arith
IsDistinct-parse_tokens getenv i seen (spec ∷ specs) ts h =
    elim (Result-cases (parse_token getenv i seen spec)) [
      | inl (t, e) ↦ elim (Result-cases (parse_tokens getenv (suc i) (t.value ∷ seen) specs)) [
        | inl (rest, d) ↦
            let p = parse_token-Parsed getenv i seen spec t e in
            let q = IsDistinct-parse_tokens getenv (suc i) (t.value ∷ seen) specs rest d in
            rw (← out_of_bind getenv i seen spec specs ts t rest h e d) (
              (
                All-map _ (λ (u : Token). u.value ≢ t.value) rest
                    (λ u k. ne_of_contains u.value t.value seen k) q.1,
                q.0,
              ),
              (
                p.fresh,
                All-map _ (λ (u : Token). contains u.value seen ≡ false) rest
                    (λ u k. contains_tail u.value t.value seen k) q.1,
              ),
              (p.usable, q.2),
              (λ j. p.subject_kept j ∷ q.3 j),
              (λ j. p.scopes_kept j ∷ q.4 j),
            )
        | inr (x, d) ↦ ground arith
      ]
      | inr (x, e) ↦ ground arith
    ]

last_match_none :
    (found : Option Token) (ts : List Token) (given : String)
    → All (λ u. u.value ≢ given) ts
    → last_match found ts given ≡ found
unfolding last_match
last_match_none found [] given h = refl
last_match_none found (t ∷ ts) given h =
    rw (test_of_ne t.value given h.0) (last_match_none found ts given h.1)

last_match-some :
    (found : Option Token) (ts : List Token) (t : Token)
    → IsDistinct ts
    → Any (λ u. u ≡ t) ts
    → last_match found ts t.value ≡ some t
unfolding last_match
last_match-some found [] t d m = absurd m
last_match-some found (u ∷ ts) t d (inl e) =
    subst (λ (w : Token). last_match found (u ∷ ts) w.value ≡ some w) e
      (rw (eq_refl u.value) (last_match_none (some u) ts u.value d.0))
last_match-some found (u ∷ ts) t d (inr m) =
    last_match-some (if u.value == t.value then some u else found) ts t d.1 m

same_identity :
    {v : String} (u t : Token) (id : Identity)
    → (u.value ≡ v) × (u ≡ t)
    → identify (some t) ≡ ok id
    → (u.value ≡ v) × (u.subject ≡ id.subject) × (u.scopes ≡ id.scopes)
unfolding identify
same_identity u t id k h = ground arith

last_match_sound :
    (found : Option Token) (ts : List Token) (given : String) (t : Token)
    → last_match found ts given ≡ some t
    → (found ≡ some t) ⊎ Any (λ u. (u.value ≡ given) × (u ≡ t)) ts
unfolding last_match
last_match_sound found [] given t h = inl h
last_match_sound found (u ∷ ts) given t h = elim (Bool-cases (u.value == given)) [
  | inl e ↦ elim (last_match_sound (some u) ts given t (rw e at h)) [
    | inl f ↦ inr (inl (eq_of_test u.value given e, some_inj f))
    | inr m ↦ inr (inr m)
  ]
  | inr e ↦ elim (last_match_sound found ts given t (rw e at h)) [
    | inl f ↦ inl f
    | inr m ↦ inr (inr m)
  ]
]

new-facts :
    (getenv : String → String) (specs : List TokenSpec) (ts : List Token)
    → new getenv specs ≡ ok ts
    → IsDistinct ts
      × All (λ t. contains t.value [] ≡ false) ts
      × All IsUsable ts
      × (map (λ (t : Token). t.subject) ts ≡ map (λ (c : TokenSpec). c.subject) specs)
      × (map (λ (t : Token). t.scopes) ts ≡ map (λ (c : TokenSpec). c.scopes) specs)
unfolding new
new-facts getenv [] ts h = cc
new-facts getenv (spec ∷ specs) ts h = IsDistinct-parse_tokens getenv 0 [] (spec ∷ specs) ts h

module _ (getenv : String → String) (specs : List TokenSpec) (ts : List Token) where
  -- Of the tokens that `New` accepts there is one for each spec, in order and with its subject
  -- and scopes; each has a value and a subject and only known scopes, and no two share a value.
  pub new-IsDistinct :
      new getenv specs ≡ ok ts
      → IsDistinct ts
        × All IsUsable ts
        × (map (λ (t : Token). t.subject) ts ≡ map (λ (c : TokenSpec). c.subject) specs)
        × (map (λ (t : Token). t.scopes) ts ≡ map (λ (c : TokenSpec). c.scopes) specs)
  new-IsDistinct h = let f = new-facts getenv specs ts h in (f.0, f.2, f.3, f.4)

  -- With tokens from `New`, `Authenticate` gives the bearer of a token that token's identity,
  -- wherever the token stands in the list, although the loop lets a later match win.
  pub authenticate-new :
      new getenv specs ≡ ok ts
      → (t : Token) → Any (λ u. u ≡ t) ts
      → authenticate ts t.value ≡ ok (record { subject = t.subject; scopes = t.scopes })
  unfolding authenticate
  authenticate-new h t m = rw (last_match-some none ts t (new-facts getenv specs ts h).0 m)

-- `Authenticate` gives an identity only to the bearer of a configured token, and it is the
-- identity of a token with that value.
pub authenticate_sound :
    (ts : List Token) (credential : String) (id : Identity)
    → authenticate ts credential ≡ ok id
    → Any (λ t. (t.value ≡ credential) × (t.subject ≡ id.subject) × (t.scopes ≡ id.scopes)) ts
unfolding authenticate
authenticate_sound ts credential id h = elim (Option-cases (last_match none ts credential)) [
  | inl e ↦ ground arith
  | inr (t, e) ↦ elim (last_match_sound none ts credential t e) [
    | inl f ↦ cc
    | inr m ↦ Any-map _ _ ts (λ u k. same_identity u t id k (rw e at h)) m
  ]
]
