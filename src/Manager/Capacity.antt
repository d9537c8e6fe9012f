-- ===== src/Manager/Capacity.antt =====
-- Admission over any interleaving of submissions, executions, drain and everything else.
pub mod Submission
use dbbridge.Base.{
  ℕ, suc, ◌+◌, ◌-◌, ◌≤◌, String, ◌≡◌, refl, sym, subst, ap, ◌∙◌, true, false, none, some, [], ◌∷◌,
  ok, arith, length,
}
use dbbridge.Base.Assoc.{
  Assoc, lookup, insert, lookup-erase, IsUnique, insert-IsUnique, erase-IsUnique, length-insert_new,
  length-erase,
}
use dbbridge.Manager.Defs.{Manager, ActiveQuery, Slots, Sys}
use dbbridge.Manager.Admission.{
  take_slot, give_slot, acquire_slot, release_slot, admit, deregister, drain, cancel_active,
  cancel_all,
}
use dbbridge.Manager.Watchers.Frame.{SameAdmission}

-- An instance in the midst of its submissions and executions. `held` counts the slots of those that are
-- between two critical sections: a submission that has a slot and is not in the registry yet, or an end
-- that has left the registry and has its slot still.
pub record Instance (S : Type 0) : Type 0 where
  pub sys : Sys S
  pub held : ℕ

abbrev pub with_manager : {S : Type 0} → Manager → Sys S → ℕ → Instance S
with_manager m sys held = record { sys = record sys { manager = m }; held = held }

-- What happens to an instance, one critical section or one call of the store at a time. Anything may
-- come between two of them.
pub data Step {S : Type 0} : Instance S → Instance S → Type 0 where
  -- a submission takes a slot
  takes :
      (sys : Sys S) (m : Manager) (held : ℕ)
      → acquire_slot sys.manager ≡ some m
      → Step (record { sys = sys; held = held }) (with_manager m sys (suc held))
  -- it registers its query, under a new id
  admits :
      (id db_id : String) (sys : Sys S) (m : Manager) (held : ℕ)
      → lookup id sys.manager.active_reg ≡ none
      → admit id db_id sys.manager ≡ ok m
      → Step (record { sys = sys; held = suc held }) (with_manager m sys held)
  -- a failed submission or an execution at its end leaves the registry
  deregisters :
      (id : String) (q : ActiveQuery) (sys : Sys S) (held : ℕ)
      → lookup id sys.manager.active_reg ≡ some q
      → Step
          (record { sys = sys; held = held })
          (with_manager (deregister id sys.manager) sys (suc held))
  -- it gives its slot back
  gives :
      (sys : Sys S) (held : ℕ)
      → Step
          (record { sys = sys; held = suc held })
          (with_manager (release_slot sys.manager) sys held)
  drains :
      (sys : Sys S) (held : ℕ)
      → Step (record { sys = sys; held = held }) (with_manager (drain sys.manager) sys held)
  cancels :
      (sys : Sys S) (held : ℕ)
      → Step (record { sys = sys; held = held }) (with_manager (cancel_active sys.manager) sys held)
  -- the store, the subscriptions and the publish queue change, here or by another instance
  works :
      (sys sys' : Sys S) (held : ℕ)
      → SameAdmission sys.manager sys'.manager
      → Step (record { sys = sys; held = held }) (record { sys = sys'; held = held })

pub data Steps {S : Type 0} (a : Instance S) : Instance S → Type 0 where
  here : Steps a a
  next : {b c : Instance S} → Steps a b → Step b c → Steps a c

-- With a limit of `n`: one slot is in use for each registered query and each one that is held.
record IsWithin (n held : ℕ) (m : Manager) : Type 0 where
  unique : IsUnique m.active_reg
  slots : Slots
  limited : m.slots ≡ some slots
  capacity : slots.capacity ≡ n
  used : slots.used ≡ length m.active_reg + held
  bounded : slots.used ≤ n

length-cancel_all : (qs : Assoc ActiveQuery) → length (cancel_all qs) ≡ length qs
unfolding cancel_all
length-cancel_all [] = refl
length-cancel_all (q ∷ qs) = ap suc (length-cancel_all qs)

lookup-cancel_all :
    (id : String) (qs : Assoc ActiveQuery) → lookup id qs ≡ none → lookup id (cancel_all qs) ≡ none
unfolding lookup cancel_all
lookup-cancel_all id [] h = refl
lookup-cancel_all id ((j, q) ∷ qs) h = ground (arith, lookup-cancel_all id qs)

cancel_all-IsUnique : (qs : Assoc ActiveQuery) → IsUnique qs → IsUnique (cancel_all qs)
unfolding cancel_all
cancel_all-IsUnique [] u = u
cancel_all-IsUnique ((j, q) ∷ qs) u = (lookup-cancel_all j qs u.0, cancel_all-IsUnique qs u.1)

takes-IsWithin :
    (n held : ℕ) (m m' : Manager)
    → acquire_slot m ≡ some m'
    → IsWithin n held m
    → IsWithin n (suc held) m'
unfolding acquire_slot take_slot
takes-IsWithin n held m m' h w =
    let s = w.slots in
    record {
      unique = ground (arith, h, w.limited, w.unique);
      slots = record s { used = suc s.used };
      limited = ground (arith, h, w.limited);
      capacity = w.capacity;
      used = ground (arith, h, w.limited, w.used);
      bounded = ground (arith, h, w.limited, w.capacity);
    }

admits-IsWithin :
    (n held : ℕ) (id db_id : String) (m m' : Manager)
    → lookup id m.active_reg ≡ none
    → admit id db_id m ≡ ok m'
    → IsWithin n (suc held) m
    → IsWithin n held m'
unfolding admit
admits-IsWithin n held id db_id m m' f h w =
    let q : ActiveQuery = record { db_id = db_id; canceled = false } in
    let registered : m'.active_reg ≡ insert id q m.active_reg = ground (arith, h) in
    record {
      unique = subst IsUnique (sym registered) (insert-IsUnique id q m.active_reg w.unique);
      slots = w.slots;
      limited = ground (arith, h, w.limited);
      capacity = w.capacity;
      used = ground (arith, registered, w.used, length-insert_new id q m.active_reg f);
      bounded = w.bounded;
    }

deregisters-IsWithin :
    (n held : ℕ) (id : String) (q : ActiveQuery) (m : Manager)
    → lookup id m.active_reg ≡ some q
    → IsWithin n held m
    → IsWithin n (suc held) (deregister id m)
unfolding deregister
deregisters-IsWithin n held id q m f w = record {
  unique = erase-IsUnique id m.active_reg w.unique;
  slots = w.slots;
  limited = w.limited;
  capacity = w.capacity;
  used = ground (arith, w.used, length-erase id q m.active_reg w.unique f);
  bounded = w.bounded;
}

gives-IsWithin :
    (n held : ℕ) (m : Manager) → IsWithin n (suc held) m → IsWithin n held (release_slot m)
unfolding release_slot give_slot
gives-IsWithin n held m w =
    let s = w.slots in
    record {
      unique = w.unique;
      slots = record s { used = s.used - 1 };
      limited = ground (arith, w.limited, w.used);
      capacity = w.capacity;
      used = omega (arith, w.used);
      bounded = omega (arith, w.bounded);
    }

Step-IsWithin :
    {S : Type 0} (n : ℕ) {a b : Instance S}
    → Step a b
    → IsWithin n a.held a.sys.manager
    → IsWithin n b.held b.sys.manager
unfolding drain cancel_active
Step-IsWithin n (takes sys m held h) w = takes-IsWithin n held sys.manager m h w
Step-IsWithin n (admits id db_id sys m held f h) w =
    admits-IsWithin n held id db_id sys.manager m f h w
Step-IsWithin n (deregisters id q sys held f) w = deregisters-IsWithin n held id q sys.manager f w
Step-IsWithin n (gives sys held) w = gives-IsWithin n held sys.manager w
Step-IsWithin n (drains sys held) w = record {
  unique = w.unique;
  slots = w.slots;
  limited = w.limited;
  capacity = w.capacity;
  used = w.used;
  bounded = w.bounded;
}
Step-IsWithin n (cancels sys held) w = record {
  unique = cancel_all-IsUnique sys.manager.active_reg w.unique;
  slots = w.slots;
  limited = w.limited;
  capacity = w.capacity;
  used = ground (arith, w.used, length-cancel_all sys.manager.active_reg);
  bounded = w.bounded;
}
Step-IsWithin n (works sys sys' held f) w = record {
  unique = subst IsUnique (sym f.registry) w.unique;
  slots = w.slots;
  limited = f.slots ∙ w.limited;
  capacity = w.capacity;
  used = ground (arith, w.used, f.registry);
  bounded = w.bounded;
}

Steps-IsWithin :
    {S : Type 0} (n : ℕ) {a b : Instance S}
    → Steps a b
    → IsWithin n a.held a.sys.manager
    → IsWithin n b.held b.sys.manager
Steps-IsWithin n here w = w
Steps-IsWithin n (next ss s) w = Step-IsWithin n s (Steps-IsWithin n ss w)

-- An instance with a limit of `n` concurrent queries that starts with none never has more than `n`
-- in its registry and between two critical sections, however the critical sections of submissions,
-- executions, cancellations and drain interleave, and as many slots are taken as there are of both.
pub length-Steps :
    {S : Type 0} (n : ℕ) (a b : Instance S)
    → a.sys.manager.active_reg ≡ []
    → a.held ≡ 0
    → a.sys.manager.slots ≡ some (record { capacity = n; used = 0 })
    → Steps a b
    → let taken = length b.sys.manager.active_reg + b.held in
      (taken ≤ n) × (b.sys.manager.slots ≡ some (record { capacity = n; used = taken }))
length-Steps n a b empty idle limit ss =
    let w0 : IsWithin n a.held a.sys.manager = record {
      unique = subst IsUnique (sym empty) tt;
      slots = record { capacity = n; used = 0 };
      limited = limit;
      capacity = refl;
      used = ground (arith, empty, idle);
      bounded = omega arith;
    } in
    let w = Steps-IsWithin n ss w0 in
    (omega (arith, w.used, w.bounded), ground (arith, w.limited, w.capacity, w.used))

Step-draining :
    {S : Type 0} {a b : Instance S} (id : String)
    → Step a b
    → a.sys.manager.draining ≡ true
    → lookup id a.sys.manager.active_reg ≡ none
    → (b.sys.manager.draining ≡ true) × (lookup id b.sys.manager.active_reg ≡ none)
unfolding drain cancel_active release_slot deregister acquire_slot admit
Step-draining id (takes sys m held h) d l = ground (arith, h)
Step-draining id (admits j db_id sys m held f h) d l = ground (arith, h)
Step-draining id (deregisters j q sys held f) d l =
    ground (arith, lookup-erase j id sys.manager.active_reg)
Step-draining id (gives sys held) d l = (d, l)
Step-draining id (drains sys held) d l = (refl, l)
Step-draining id (cancels sys held) d l = (d, lookup-cancel_all id sys.manager.active_reg l)
Step-draining id (works sys sys' held f) d l = ground (arith, f.registry, f.draining)

-- Once an instance drains it goes on draining, and no query that is not in its registry enters it
-- any more, also of a submission that had its slot before: a registry seen empty after `Drain` stays
-- empty.
pub Steps-draining :
    {S : Type 0} (a b : Instance S) (id : String)
    → a.sys.manager.draining ≡ true
    → lookup id a.sys.manager.active_reg ≡ none
    → Steps a b
    → (b.sys.manager.draining ≡ true) × (lookup id b.sys.manager.active_reg ≡ none)
Steps-draining a b id d l here = (d, l)
Steps-draining a b id d l (next {b = c} ss s) =
    let (d', l') = Steps-draining a c id d l ss in Step-draining id s d' l'
