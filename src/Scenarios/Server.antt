-- ===== src/Scenarios/Server.antt =====
-- A server and a codec to try the store in Redis on: the texts and the sets as functions of the key,
-- and a codec of two records.
use native.Mathlib.Decide.{ℕ_discrete}
use dbbridge.Base.{
  String-discrete, String, ◌==◌, ◌≡◌, refl, sym, ◌≢◌, Bool, true, false, Option, none, some, List,
  [], ◌∷◌, Result, ok, err, contains, length, ap, ◌∙◌, arith, eq_iff, if◌then◌else◌, ◌↔◌,
}
use dbbridge.Base.Int.{ℤ, pos}
use dbbridge.Domain.{Error, failure, QueryRecord}
use dbbridge.State.Contract.{kept}
use dbbridge.State.Redis.Api.{
  Client, Codec, Command, Commit, committed, aborted, commit_failed, ClientLaws, CodecLaws,
  value_after, member_after,
}
use dbbridge.Scenarios.Fixtures.{query, finished}

pub record Server : Type 0 where
  pub texts : String → Option String
  pub sets : String → List String
  pub clock : ℤ

abbrev remove : String → List String → List String
remove x [] = []
remove x (y ∷ ys) = let rest = remove x ys in if x == y then rest else y ∷ rest

-- The members of a set after commands.
abbrev set_after : String → List Command → List String → List String
set_after key [] xs = xs
set_after key (Command.sadd k y ∷ cs) xs = set_after key cs (if k == key then y ∷ xs else xs)
set_after key (Command.srem k y ∷ cs) xs = set_after key cs (if k == key then remove y xs else xs)
set_after key (Command.set k y e ∷ cs) xs = set_after key cs xs
set_after key (Command.pexpire k e ∷ cs) xs = set_after key cs xs
set_after key (Command.del k ∷ cs) xs = set_after key cs xs

contains-remove :
    (x y : String) (ys : List String)
    → contains y (remove x ys) ≡ (if x == y then false else contains y ys)
contains-remove x y [] = ground arith
contains-remove x y (z ∷ ys) =
    ground (arith, eq_iff x z, eq_iff y z, eq_iff x y, contains-remove x y ys)

contains-set_after :
    (key x : String) (cs : List Command) (xs : List String)
    → contains x (set_after key cs xs) ≡ member_after key x cs (contains x xs)
contains-set_after key x [] xs = refl
contains-set_after key x (Command.sadd k y ∷ cs) xs =
    contains-set_after key x cs (if k == key then y ∷ xs else xs)
    ∙ ap (member_after key x cs) (ground (arith, eq_iff x y, eq_iff y x))
contains-set_after key x (Command.srem k y ∷ cs) xs =
    contains-set_after key x cs (if k == key then remove y xs else xs)
    ∙ ap (member_after key x cs) (ground (arith, contains-remove y x xs))
contains-set_after key x (Command.set k y e ∷ cs) xs = contains-set_after key x cs xs
contains-set_after key x (Command.pexpire k e ∷ cs) xs = contains-set_after key x cs xs
contains-set_after key x (Command.del k ∷ cs) xs = contains-set_after key x cs xs

abbrev after : List Command → Server → Server
after cs s = record s {
  texts = λ k. value_after k cs (s.texts k);
  sets = λ k. set_after k cs (s.sets k);
}

abbrev same_text : Option String → Option String → Bool
same_text none none = true
same_text (some a) (some b) = a == b
same_text none (some b) = false
same_text (some a) none = false

same_text_sound : (a b : Option String) → same_text a b ≡ true → a ≡ b
same_text_sound none none h = refl
same_text_sound (some a) (some b) h = ground (arith, h, eq_iff a b)
same_text_sound none (some b) h = ground (arith, h)
same_text_sound (some a) none h = ground (arith, h)

abbrev set_if_free : String → String → Option String → Server → Result Error Bool × Server
set_if_free k v none s = (ok true, after (Command.set k v (pos 0) ∷ []) s)
set_if_free k v (some x) s = (ok false, s)

abbrev exec_if : Bool → List Command → Server → Commit × Server
exec_if true cs s = (committed, after cs s)
exec_if false cs s = (aborted, s)

exec_if-committed :
    (b : Bool) (cs : List Command) (s s' : Server)
    → exec_if b cs s ≡ (committed, s')
    → (b ≡ true) × (after cs s ≡ s')
exec_if-committed true cs s s' h = (refl, ap (λ r. r.1) h)
exec_if-committed false cs s s' h = ground (arith, h)

exec_if-aborted :
    (b : Bool) (cs : List Command) (s s' : Server) → exec_if b cs s ≡ (aborted, s') → s ≡ s'
exec_if-aborted true cs s s' h = ground (arith, h)
exec_if-aborted false cs s s' h = ap (λ r. r.1) h

exec_if-lost :
    (b : Bool) (cs : List Command) (s s' : Server) (e : Error)
    → exec_if b cs s ≢ (commit_failed e, s')
exec_if-lost true cs s s' e h = ground (arith, h)
exec_if-lost false cs s s' e h = ground (arith, h)

set_if_free-won :
    (k v : String) (o : Option String) (s s' : Server)
    → set_if_free k v o s ≡ (ok true, s')
    → o ≡ none
set_if_free-won k v none s s' h = refl
set_if_free-won k v (some x) s s' h = ground (arith, h)

set_if_free-lost :
    (k v : String) (o : Option String) (s s' : Server)
    → set_if_free k v o s ≡ (ok false, s')
    → s ≡ s'
set_if_free-lost k v none s s' h = ground (arith, h)
set_if_free-lost k v (some x) s s' h = ap (λ r. r.1) h

abbrev pub client : Client Server
client = record {
  get = λ k s. ok (s.texts k);
  get_ttl = λ k l s. ok (s.texts k, err (failure "no lease"));
  key_exists = λ k s. ok false;
  scard = λ k s. ok (length (s.sets k));
  smembers = λ k s. ok (s.sets k);
  scan = λ p s. ok ("dbbridge:query:q1" ∷ []) ∷ [];
  set_nx = λ k v e s. set_if_free k v (s.texts k) s;
  exec = λ cs s. (ok tt, after cs s);
  commit = λ k at cs s. exec_if (same_text (at.texts k) (s.texts k)) cs s;
  publish = λ ch text s. (ok tt, s);
  now = λ s. s.clock;
}

pub client_laws : ClientLaws client
client_laws = record {
  value = λ k s. s.texts k;
  member = λ k x s. contains x (s.sets k);
  get_value = λ k s v h. ground (arith, h);
  get_ttl_value = λ k l s v t h. ground (arith, h);
  smembers_member = λ k x s ids h. ground (arith, h);
  exec_value = λ cs s s' k h. sym (ap (λ r. r.1.texts k) h);
  exec_member = λ cs s s' k x h.
      sym (ap (λ r. contains x (r.1.sets k)) h) ∙ contains-set_after k x cs (s.sets k);
  set_nx_won = λ k v e s s' h. set_if_free-won k v (s.texts k) s s' h;
  set_nx_lost =
      λ k v e s s' j h. sym (ap (λ t. t.texts j) (set_if_free-lost k v (s.texts k) s s' h));
  commit_watched = λ key at now now' cs h.
      same_text_sound (at.texts key) (now.texts key)
        (exec_if-committed (same_text (at.texts key) (now.texts key)) cs now now' h).0;
  commit_value = λ key at now now' cs k h. sym (
      ap (λ t. t.texts k)
        (exec_if-committed (same_text (at.texts key) (now.texts key)) cs now now' h).1);
  commit_member = λ key at now now' cs k x h.
      sym (
        ap (λ t. contains x (t.sets k))
          (exec_if-committed (same_text (at.texts key) (now.texts key)) cs now now' h).1)
      ∙ contains-set_after k x cs (now.sets k);
  commit_lost = λ key at now now' cs e k h.
      absurd (exec_if-lost (same_text (at.texts key) (now.texts key)) cs now now' e h);
  abort_value = λ key at now now' cs k h. sym (
      ap (λ t. t.texts k)
        (exec_if-aborted (same_text (at.texts key) (now.texts key)) cs now now' h));
}

pub client_laws-value : (k : String) (s : Server) → client_laws.value k s ≡ s.texts k
unfolding client_laws
client_laws-value k s = refl

pub QueryRecord-discrete : Discrete QueryRecord
QueryRecord-discrete = hlevel (ℕ_discrete, String-discrete)

abbrev is_yes {ℓ} : {A : Type ℓ} → Dec A → Bool
is_yes (yes a) = true
is_yes (no n) = false

is_yes_iff {ℓ} : {A : Type ℓ} (d : Dec A) → (is_yes d ≡ true) ↔ A
is_yes_iff (yes a) = (λ h. a, λ a'. refl)
is_yes_iff (no n) = (λ h. ground (arith, h), λ a'. absurd (n a'))

abbrev same_record : QueryRecord → QueryRecord → Bool
same_record a b = is_yes (QueryRecord-discrete a b)

abbrev text_of : Bool → Bool → Result Error String
text_of true second = ok "1"
text_of false true = ok "2"
text_of false false = err (failure "not encoded")

abbrev read : String → Option QueryRecord
read text = if text == "1" then some query else if text == "2" then some finished else none

abbrev pub codec : Codec
codec = record {
  marshal = λ rec. text_of (same_record (kept rec) query) (same_record (kept rec) finished);
  unmarshal = read;
  marshal_msg = λ msg. ok msg.query_id;
}

abbrev as_text : String → Result Error String
as_text a = ok a

text_inj : {a b : String} → as_text a ≡ as_text b → a ≡ b
text_inj e = cc

read-text_of :
    (rec : QueryRecord) (first second : Bool) (text : String)
    → (first ≡ true → rec ≡ query)
    → (second ≡ true → rec ≡ finished)
    → text_of first second ≡ ok text
    → read text ≡ some rec
read-text_of rec true second text f g h = ap read (sym (text_inj h)) ∙ ap some (sym (f refl))
read-text_of rec false true text f g h = ap read (sym (text_inj h)) ∙ ap some (sym (g refl))
read-text_of rec false false text f g h = ground (arith, h)

pub codec_laws : CodecLaws codec
codec_laws = record {
  unmarshal-marshal = λ rec text h.
      read-text_of (kept rec) (same_record (kept rec) query) (same_record (kept rec) finished) text
        (is_yes_iff (QueryRecord-discrete (kept rec) query)).0
        (is_yes_iff (QueryRecord-discrete (kept rec) finished)).0 h;
}

pub marshal-query : codec.marshal query ≡ ok "1"
marshal-query = rw ((is_yes_iff (QueryRecord-discrete query query)).1 refl) refl
