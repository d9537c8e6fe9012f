-- ===== src/Manager/Watchers/Frame.antt =====
-- Subscriptions leave admission alone.
use dbbridge.Base.{ℕ, String, ◌≡◌, List, [], ◌∷◌, arith}
use dbbridge.State.MetaStore.{MetaStore}
use dbbridge.Manager.Defs.{Manager, QueryEvent, Watcher, Sys}
use dbbridge.Manager.Watchers.{
  send_to, deliver_to, deliver_each, deliver_event, queue_event, notify_watchers, unwatch, watch,
}

-- The registry, the slots, the drain flag and the configuration are those of `m`.
pub record SameAdmission (m m' : Manager) : Type 0 where
  pub registry : m'.active_reg ≡ m.active_reg
  pub slots : m'.slots ≡ m.slots
  pub draining : m'.draining ≡ m.draining
  pub owner : m'.instance_id ≡ m.instance_id
  pub config : m'.cfg ≡ m.cfg

pub SameAdmission-trans :
    {m n o : Manager} → SameAdmission m n → SameAdmission n o → SameAdmission m o
SameAdmission-trans f g = ground arith

pub unwatch-SameAdmission : (id : String) (ch : ℕ) (m : Manager) → SameAdmission m (unwatch id ch m)
unfolding unwatch
unwatch-SameAdmission id ch m = ground arith

deliver_to-SameAdmission :
    (ev : QueryEvent) (ch : ℕ) (m : Manager) → SameAdmission m (deliver_to ev ch m)
unfolding deliver_to unwatch send_to
deliver_to-SameAdmission ev ch m = ground arith

deliver_each-SameAdmission :
    (ev : QueryEvent) (ws : List Watcher) (m : Manager) → SameAdmission m (deliver_each ev ws m)
unfolding deliver_each
deliver_each-SameAdmission ev [] m = ground arith
deliver_each-SameAdmission ev (w ∷ ws) m =
    SameAdmission-trans (deliver_to-SameAdmission ev w.channel m)
      (deliver_each-SameAdmission ev ws (deliver_to ev w.channel m))

pub deliver_event-SameAdmission :
    (ev : QueryEvent) (m : Manager) → SameAdmission m (deliver_event ev m)
unfolding deliver_event
deliver_event-SameAdmission ev m = deliver_each-SameAdmission ev _ m

pub queue_event-SameAdmission : (ev : QueryEvent) (m : Manager) → SameAdmission m (queue_event ev m)
unfolding queue_event
queue_event-SameAdmission ev m = ground arith

pub notify_watchers-SameAdmission :
    (ev : QueryEvent) (m : Manager) → SameAdmission m (notify_watchers ev m)
unfolding notify_watchers
notify_watchers-SameAdmission ev m =
    SameAdmission-trans (deliver_event-SameAdmission ev m)
      (queue_event-SameAdmission ev (deliver_event ev m))

pub watch-SameAdmission :
    {S : Type 0} (ms : MetaStore S) (id : String) (sys : Sys S)
    → SameAdmission sys.manager (watch ms id sys).1.manager
unfolding watch unwatch
watch-SameAdmission ms id sys = ground arith
