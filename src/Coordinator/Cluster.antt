-- ===== src/Coordinator/Cluster.antt =====
-- The agents that the coordinator shows, `OnJoin`, `OnLeave` and `OnHeartbeat` of
-- internal/coordinator/coordinator.go, with the registry of their sessions. Labels, addresses and resource
-- figures are one value of a type `D`; rebalancing and events are modelled elsewhere.
mod Coherent
mod Racing
mod Tests
use Prim.Native.String.{String}
use load_wave.Prelude.{ℕ, Bool, true, false, Option, none, some, List, [], ◌∷◌, if◌then◌else◌, ltb}
use load_wave.Prelude.Assoc.{string_eq, find, put, erase}
use load_wave.Registry.{Pointer, Registry, add, remove}

pub record WorkerInfo (D : Type 0) : Type 0 where
  pub id : String
  pub index : ℕ
  pub active_vus : ℕ
  pub usage : D

pub record AgentInfo (D : Type 0) : Type 0 where
  pub id : String
  pub hello : D
  pub last_seen : ℕ
  pub healthy : Bool
  pub active_vus : ℕ
  pub healthy_workers : ℕ
  pub usage : D
  pub workers : List (WorkerInfo D)

-- `NodeHeartbeat`, and when its session was last seen.
pub record Heartbeat (D : Type 0) : Type 0 where
  pub seen : ℕ
  pub active_vus : ℕ
  pub healthy_workers : ℕ
  pub usage : D
  pub workers : List (WorkerInfo D)

pub record Cluster (D : Type 0) : Type 0 where
  pub sessions : Registry
  pub agents : List (String × AgentInfo D)

module _ {D : Type 0} where
  -- `sort.Slice` by index; workers with one index may come in any order.
  unfoldable pub place_worker : WorkerInfo D → List (WorkerInfo D) → List (WorkerInfo D)
  place_worker w [] = w ∷ []
  place_worker w (v ∷ vs) =
      let rest = place_worker w vs in if ltb v.index w.index then v ∷ rest else w ∷ v ∷ vs

  unfoldable pub sort_workers : List (WorkerInfo D) → List (WorkerInfo D)
  sort_workers [] = []
  sort_workers (w ∷ ws) = place_worker w (sort_workers ws)

  -- The record of an agent that joins; `none_used` is the zero of the figures.
  abbrev pub joined : D → Pointer → D → ℕ → AgentInfo D
  joined none_used s hello now = record {
    id = s.id;
    hello = hello;
    last_seen = now;
    healthy = true;
    active_vus = 0;
    healthy_workers = 0;
    usage = none_used;
    workers = [];
  }

  -- What the two halves of `OnJoin` and of `OnLeave` do: each holds a lock of its own, so that handlers of
  -- other sessions can come between them.
  abbrev pub add_session : Pointer → Cluster D → Cluster D
  add_session s c = record c { sessions = (add s c.sessions).0 }

  abbrev pub show_agent : D → Pointer → D → ℕ → Cluster D → Cluster D
  show_agent none_used s hello now c = record c {
    agents = put s.id (joined none_used s hello now) c.agents;
  }

  -- `sessions.Remove` and its answer, on which the second half follows.
  abbrev pub remove_session : Pointer → Cluster D → Cluster D × Bool
  remove_session s c =
      let (sessions, was_there) = remove s c.sessions in
      (record c { sessions = sessions }, was_there)

  abbrev pub hide_agent : Pointer → Cluster D → Cluster D
  hide_agent s c = record c { agents = erase s.id c.agents }

  -- `OnJoin`
  unfoldable pub on_join : D → Pointer → D → ℕ → Cluster D → Cluster D
  on_join none_used s hello now c = show_agent none_used s hello now (add_session s c)

  abbrev pub left : Pointer → Cluster D → Registry × Bool → Cluster D
  left s c (sessions, true) = hide_agent s (record c { sessions = sessions })
  left s c (sessions, false) = record c { sessions = sessions }

  -- `OnLeave`
  unfoldable pub on_leave : Pointer → Cluster D → Cluster D
  on_leave s c = left s c (remove s c.sessions)

  abbrev pub beaten : Heartbeat D → AgentInfo D → AgentInfo D
  beaten b info = record info {
    last_seen = b.seen;
    active_vus = b.active_vus;
    healthy_workers = b.healthy_workers;
    healthy = true;
    usage = b.usage;
    workers = sort_workers b.workers;
  }

  abbrev pub beaten_at : Pointer → Heartbeat D → Cluster D → Option (AgentInfo D) → Cluster D
  beaten_at s b c none = c
  beaten_at s b c (some info) = record c { agents = put s.id (beaten b info) c.agents }

  -- `OnHeartbeat`
  unfoldable pub on_heartbeat : Pointer → Heartbeat D → Cluster D → Cluster D
  on_heartbeat s b c = beaten_at s b c (find s.id c.agents)
