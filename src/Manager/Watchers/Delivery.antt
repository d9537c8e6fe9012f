-- ===== src/Manager/Watchers/Delivery.antt =====
-- What an event does to the subscriptions of its query.
use dbbridge.Base.{
  ℕ, String, ◌≡◌, ◌≢◌, refl, ◌∙◌, Option-cases, inl, inr, false, Option, none, some, List, [], ◌∷◌,
  arith, eq_iff,
}
use dbbridge.Base.Assoc.{lookup, lookup-insert, lookup-erase}
use dbbridge.Manager.Defs.{Manager, QueryEvent, Watcher}
use dbbridge.Manager.Watchers.{
  remove_channel, has_channel, keep_subs, unwatch, offer_to, send_to, deliver_to, deliver_each,
  deliver_event,
}

keep_subs-other :
    (id other : String) (ws : List Watcher) (m : Manager)
    → id ≢ other
    → lookup other (keep_subs id ws m.watchers) ≡ lookup other m.watchers
unfolding keep_subs
keep_subs-other id other [] m n = ground (arith, eq_iff id other, lookup-erase id other m.watchers)
keep_subs-other id other (w ∷ ws) m n =
    ground (arith, eq_iff id other, lookup-insert id other (w ∷ ws) m.watchers)

unwatch-other :
    (id other : String) (ch : ℕ) (m : Manager)
    → id ≢ other
    → lookup other (unwatch id ch m).watchers ≡ lookup other m.watchers
unfolding unwatch
unwatch-other id other ch m n = elim (Option-cases (lookup id m.watchers)) [
  | inl e ↦ ground (arith, e)
  | inr (ws, e) ↦ ground (arith, e, keep_subs-other id other (remove_channel ch ws) m n)
]

send_to-other :
    (ev : QueryEvent) (other : String) (ch : ℕ) (m : Manager)
    → ev.query_id ≢ other
    → lookup other (send_to ev ch m).watchers ≡ lookup other m.watchers
unfolding send_to
send_to-other ev other ch m n = elim (Option-cases (lookup ev.query_id m.watchers)) [
  | inl e ↦ ground (arith, e)
  | inr (ws, e) ↦ ground (
    arith,
    e,
    eq_iff ev.query_id other,
    lookup-insert ev.query_id other (offer_to ev ch ws) m.watchers,
  )
]

deliver_to-other :
    (ev : QueryEvent) (other : String) (ch : ℕ) (m : Manager)
    → ev.query_id ≢ other
    → lookup other (deliver_to ev ch m).watchers ≡ lookup other m.watchers
unfolding deliver_to
deliver_to-other ev other ch m n =
    ground
      (arith, send_to-other ev other ch m n, unwatch-other ev.query_id other ch (send_to ev ch m) n)

deliver_each-other :
    (ev : QueryEvent) (other : String) (ws : List Watcher) (m : Manager)
    → ev.query_id ≢ other
    → lookup other (deliver_each ev ws m).watchers ≡ lookup other m.watchers
unfolding deliver_each
deliver_each-other ev other [] m n = refl
deliver_each-other ev other (w ∷ ws) m n =
    deliver_each-other ev other ws (deliver_to ev w.channel m) n
    ∙ deliver_to-other ev other w.channel m n

pub deliver_event-other :
    (ev : QueryEvent) (other : String) (m : Manager)
    → ev.query_id ≢ other
    → lookup other (deliver_event ev m).watchers ≡ lookup other m.watchers
unfolding deliver_event
deliver_event-other ev other m n = deliver_each-other ev other _ m n

-- No two subscriptions have one channel.
abbrev pub AreDistinct : List Watcher → Type 0
AreDistinct [] = Unit
AreDistinct (w ∷ ws) = (has_channel w.channel ws ≡ false) × AreDistinct ws

module _ (ev : QueryEvent) where
  -- What is left in the map of the subscriptions `ws`: a query without any has no entry.
  abbrev entry_of : List Watcher → Option (List Watcher)
  entry_of [] = none
  entry_of (w ∷ ws) = some (w ∷ ws)

  -- The sends of the loop on their own.
  offer_each : List Watcher → List Watcher → List Watcher
  offer_each [] subs = subs
  offer_each (w ∷ ws) subs = offer_each ws (offer_to ev w.channel subs)
