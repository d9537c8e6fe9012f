-- ===== src/Manager/Control/Messages.antt =====
-- What a message does at the instances that receive it.
use dbbridge.Base.{
  String, ◌==◌, ◌≡◌, ◌≢◌, ap, true, false, ◌||◌, Option, none, some, [], ◌∷◌, ok, arith, eq_iff,
  if◌then◌else◌, Option-cases, Bool-cases, inl, inr, test_of_ne,
}
use dbbridge.Base.Assoc.{Assoc, lookup, insert, has, keys, lookup-insert}
use dbbridge.Domain.{QueryRecord, is_terminal}
use dbbridge.State.MetaStore.{
  MetaStore, ControlMsg, ControlType, QueryEventPayload, control_stop_query, control_query_event,
}
use dbbridge.Manager.Defs.{Manager, QueryEvent, ActiveQuery, Sys}
use dbbridge.Manager.Watchers.{deliver_event}
use dbbridge.Manager.Watchers.Delivery.{deliver_event-other}
use dbbridge.Manager.Watchers.Frame.{deliver_event-SameAdmission}
use dbbridge.Manager.Control.{
  cancel_query, stop_message, event_message, event_of, obey, handle_control, stop_query,
}

-- An announced event is delivered at each other instance that does not execute the query, and
-- nowhere else.
pub handle_control-event_message :
    (sender : String) (ev : QueryEvent) (m : Manager)
    → handle_control (event_message sender ev) m ≡ (
        if (sender == m.instance_id) || has (lookup ev.query_id m.active_reg)
        then m
        else deliver_event ev m)
unfolding handle_control obey
handle_control-event_message sender ev m = ground arith

keys-insert :
    {V : Type 0} (k : String) (v w : V) (m : Assoc V)
    → lookup k m ≡ some w
    → keys (insert k v m) ≡ keys m
unfolding lookup insert
keys-insert k v w [] h = ground (arith, h)
keys-insert k v w ((j, x) ∷ m) h = ground (arith, eq_iff j k, keys-insert k v w m)

-- The registered queries, the slots and the drain flag are those of `m`, and so are the subscriptions
-- of the queries that run here.
pub record IsGuarded (m m' : Manager) : Type 0 where
  pub registered : keys m'.active_reg ≡ keys m.active_reg
  pub slots : m'.slots ≡ m.slots
  pub draining : m'.draining ≡ m.draining
  pub watched :
      (id : String)
      → has (lookup id m.active_reg) ≡ true
      → lookup id m'.watchers ≡ lookup id m.watchers

cancel_query-IsGuarded : (id : String) (m : Manager) → IsGuarded m (cancel_query id m)
unfolding cancel_query
cancel_query-IsGuarded id m = elim (Option-cases (lookup id m.active_reg)) [
  | inl n ↦ ground arith
  | inr (aq, e) ↦ ground (arith, keys-insert id (record aq { canceled = true }) aq m.active_reg e)
]

deliver_event-IsGuarded :
    (ev : QueryEvent) (m : Manager)
    → has (lookup ev.query_id m.active_reg) ≡ false
    → IsGuarded m (deliver_event ev m)
deliver_event-IsGuarded ev m n =
    let same = deliver_event-SameAdmission ev m in
    record {
      registered = ap keys same.registry;
      slots = same.slots;
      draining = same.draining;
      watched = λ id h. deliver_event-other ev id m (λ e. cc);
    }

IsGuarded-refl : (m : Manager) → IsGuarded m m
IsGuarded-refl m = ground arith

obey_event-IsGuarded :
    (msg : ControlMsg) (event : Option QueryEventPayload) (m : Manager)
    → IsGuarded m (obey control_query_event (record msg { event = event }) m)
unfolding obey
obey_event-IsGuarded msg none m = IsGuarded-refl m
obey_event-IsGuarded msg (some payload) m =
    elim (Bool-cases (has (lookup msg.query_id m.active_reg))) [
      | inl h ↦ rw h (IsGuarded-refl m)
      | inr n ↦ rw n (deliver_event-IsGuarded (event_of msg.query_id payload) m n)
    ]

obey-IsGuarded :
    (kind : ControlType) (msg : ControlMsg) (m : Manager) → IsGuarded m (obey kind msg m)
unfolding obey
obey-IsGuarded control_stop_query msg m = cancel_query-IsGuarded msg.query_id m
obey-IsGuarded control_query_event msg m = obey_event-IsGuarded msg msg.event m

-- Whatever message comes in, it registers and removes no query, takes no slot and ends no drain, and
-- the subscriptions of a query that runs here stay as they are.
pub handle_control-IsGuarded : (msg : ControlMsg) (m : Manager) → IsGuarded m (handle_control msg m)
unfolding handle_control
handle_control-IsGuarded msg m = elim (Bool-cases (msg.sender_id == m.instance_id)) [
  | inl own ↦ rw own (IsGuarded-refl m)
  | inr n ↦ rw n (obey-IsGuarded msg.kind msg m)
]

-- The contexts of an instance after one query of it has been canceled.
abbrev pub IsCanceled : String → ActiveQuery → Manager → Manager → Type 0
IsCanceled query_id aq m m' =
    (id : String)
    → lookup id m'.active_reg
      ≡ (if query_id == id then some (record aq { canceled = true }) else lookup id m.active_reg)

cancel_query-IsCanceled :
    (id : String) (aq : ActiveQuery) (m : Manager)
    → lookup id m.active_reg ≡ some aq
    → IsCanceled id aq m (cancel_query id m)
unfolding cancel_query
cancel_query-IsCanceled id aq m h other =
    ground (arith, h, lookup-insert id other (record aq { canceled = true }) m.active_reg)

module _ {S : Type 0} (ms : MetaStore S) (id : String) (rec : QueryRecord) (aq : ActiveQuery)
    (owner : Manager) (sys : Sys S) where
  -- A query that is not finished is stopped on its owner's instance, whichever instance is asked: the
  -- owner cancels it at once, and another instance sends the message on which the owner cancels it.
  -- Its other queries go on.
  pub stop_query-IsCanceled :
      ms.get_query id sys.store ≡ ok rec
      → is_terminal rec.state ≡ false
      → rec.owner_instance_id ≡ owner.instance_id
      → lookup id owner.active_reg ≡ some aq
      → let msg = stop_message sys.manager.instance_id id in
        let sent = ms.publish_control msg sys.store in
        ((sys.manager ≡ owner)
          → (stop_query ms id sys ≡ (ok tt, record sys { manager = cancel_query id owner }))
            × IsCanceled id aq owner (cancel_query id owner))
        × ((sys.manager.instance_id ≢ owner.instance_id)
            → (stop_query ms id sys ≡ (sent.0, record sys { store = sent.1 }))
              × IsCanceled id aq owner (handle_control msg owner))
  unfolding stop_query handle_control obey
  stop_query-IsCanceled g t o l = (
    λ e. (
      ground (arith, g, t, o, l, e, eq_iff rec.owner_instance_id sys.manager.instance_id),
      cancel_query-IsCanceled id aq owner l,
    ),
    λ n. (
      ground (arith, g, t, o, eq_iff rec.owner_instance_id sys.manager.instance_id),
      rw (test_of_ne sys.manager.instance_id owner.instance_id n)
          (cancel_query-IsCanceled id aq owner l),
    ),
  )
