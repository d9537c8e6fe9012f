-- ===== src/State/Redis/Api.antt =====
-- The client of a Redis server, which the store in Redis calls: its commands, and what the manual of
-- Redis says of them. A command can fail, and a failed pipeline may have done a part of its commands.
use dbbridge.Base.{
  contains, String, ◌==◌, ◌≡◌, ◌⊎◌, Bool, true, false, ◌&&◌, Option, none, some, List, [], ◌∷◌,
  if◌then◌else◌, Result, ok, ℕ,
}
use dbbridge.Base.Int.{ℤ}
use dbbridge.Domain.{Error, QueryRecord}
use dbbridge.State.MetaStore.{Op, ControlMsg}

-- The commands that write, as a pipeline queues them; an expiry in nanoseconds, or milliseconds.
pub data Command : Type 0 where
  set : String → String → ℤ → Command
  pexpire : String → ℕ → Command
  del : String → Command
  sadd srem : String → String → Command

-- What becomes of a transaction that watches a key.
pub data Commit : Type 0 where
  committed aborted : Commit
  commit_failed : Error → Commit

pub record Client (S : Type 0) : Type 0 where
  pub get : String → S → Result Error (Option String)
  -- GET and TTL in one round trip
  pub get_ttl : String → String → S → Result Error (Option String × Result Error ℤ)
  pub key_exists : String → S → Result Error Bool
  pub scard : String → S → Result Error ℕ
  pub smembers : String → S → Result Error (List String)
  -- the pages of SCAN, up to the one with cursor 0
  pub scan : String → S → List (Result Error (List String))
  pub set_nx : String → String → ℤ → Op S Bool
  pub exec : List Command → Op S Unit
  -- EXEC of a transaction: the watched key, the state when it was read, and the state now
  pub commit : String → S → List Command → S → Commit × S
  pub publish : String → String → Op S Unit
  -- the clock of the caller
  pub now : S → ℤ

-- `encoding/json` over records and messages.
pub record Codec : Type 0 where
  pub marshal : QueryRecord → Result Error String
  pub unmarshal : String → Option QueryRecord
  pub marshal_msg : ControlMsg → Result Error String

-- The text at a key, and the members of a set, after commands.
abbrev pub value_after : String → List Command → Option String → Option String
value_after key [] v = v
value_after key (set k x e ∷ cs) v = value_after key cs (if k == key then some x else v)
value_after key (pexpire k e ∷ cs) v = value_after key cs v
value_after key (del k ∷ cs) v = value_after key cs (if k == key then none else v)
value_after key (sadd k x ∷ cs) v = value_after key cs v
value_after key (srem k x ∷ cs) v = value_after key cs v

abbrev pub member_after : String → String → List Command → Bool → Bool
member_after key x [] b = b
member_after key x (sadd k y ∷ cs) b =
    member_after key x cs (if (k == key) && (y == x) then true else b)
member_after key x (srem k y ∷ cs) b =
    member_after key x cs (if (k == key) && (y == x) then false else b)
member_after key x (set k y e ∷ cs) b = member_after key x cs b
member_after key x (pexpire k e ∷ cs) b = member_after key x cs b
member_after key x (del k ∷ cs) b = member_after key x cs b

-- What the commands do to the text at a key when they succeed. Time passes between calls, and not
-- within one.
pub record ClientLaws {S : Type 0} (c : Client S) : Type 0 where
  pub value : String → S → Option String
  pub member : String → String → S → Bool
  pub get_value : (k : String) (s : S) (v : Option String) → c.get k s ≡ ok v → v ≡ value k s
  pub get_ttl_value :
      (k l : String) (s : S) (v : Option String) (t : Result Error ℤ)
      → c.get_ttl k l s ≡ ok (v, t)
      → v ≡ value k s
  pub smembers_member :
      (k x : String) (s : S) (members : List String)
      → c.smembers k s ≡ ok members
      → contains x members ≡ member k x s
  pub exec_value :
      (cs : List Command) (s s' : S) (k : String)
      → c.exec cs s ≡ (ok tt, s')
      → value k s' ≡ value_after k cs (value k s)
  pub exec_member :
      (cs : List Command) (s s' : S) (k x : String)
      → c.exec cs s ≡ (ok tt, s')
      → member k x s' ≡ member_after k x cs (member k x s)
  pub set_nx_won :
      (k v : String) (e : ℤ) (s s' : S) → c.set_nx k v e s ≡ (ok true, s') → value k s ≡ none
  pub set_nx_lost :
      (k v : String) (e : ℤ) (s s' : S) (j : String)
      → c.set_nx k v e s ≡ (ok false, s')
      → value j s' ≡ value j s
  -- a transaction goes through only if nobody has written the watched key since it was read
  pub commit_watched :
      (key : String) (at now now' : S) (cs : List Command)
      → c.commit key at cs now ≡ (committed, now')
      → value key at ≡ value key now
  pub commit_value :
      (key : String) (at now now' : S) (cs : List Command) (k : String)
      → c.commit key at cs now ≡ (committed, now')
      → value k now' ≡ value_after k cs (value k now)
  pub commit_member :
      (key : String) (at now now' : S) (cs : List Command) (k x : String)
      → c.commit key at cs now ≡ (committed, now')
      → member k x now' ≡ member_after k x cs (member k x now)
  -- the reply to a transaction can be lost, after all of it was done or nothing
  pub commit_lost :
      (key : String) (at now now' : S) (cs : List Command) (e : Error) (k : String)
      → c.commit key at cs now ≡ (commit_failed e, now')
      → (value k now' ≡ value k now)
        ⊎ ((value key at ≡ value key now) × (value k now' ≡ value_after k cs (value k now)))
  pub abort_value :
      (key : String) (at now now' : S) (cs : List Command) (k : String)
      → c.commit key at cs now ≡ (aborted, now')
      → value k now' ≡ value k now

-- A record is read back as it was written, but for the deadline of its lease, which is not encoded.
pub record CodecLaws (j : Codec) : Type 0 where
  pub unmarshal-marshal :
      (rec : QueryRecord) (text : String)
      → j.marshal rec ≡ ok text
      → j.unmarshal text ≡ some (record rec { lease_deadline = ℤ.pos 0 })
