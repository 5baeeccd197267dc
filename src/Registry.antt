-- ===== src/Registry.antt =====
-- The manager's in-memory node registry: src/oumigo/service/manager/control/registry.py.
-- `time.time()` is an argument, in any unit; the two time-outs are in the same unit. The lock is
-- not modelled: each method holds it from its first access to its last, so methods do not interleave.
-- `state` and `transport` hold the values of the enumerations that the callers pass.
pub mod Reaping
pub mod Validity
pub mod Naming
mod Tests
use oumigo.Prelude.{
  ℕ, ◌+◌, ◌-◌, ◌≡◌, String, Bool, true, false, ◌&&◌, not, Option, none, some, List, [], ◌∷◌, ◌++◌,
  ltb, if◌then◌else◌, or_else, is_some, length,
}
use oumigo.Prelude.Dict.{Dict, get, put, remove, values}
use oumigo.Protocol.{NodeState, RunState, Transport}

-- `NodeCapabilities`, dumped; the VRAM is rounded to tenths of a GiB.
pub record Capabilities : Type 0 where
  pub gpu : Option String
  pub vram_tenths : Option ℕ

pub record NodeRecord : Type 0 where
  pub node_id : String
  pub address : String
  pub state : NodeState
  pub incarnation : ℕ
  pub capabilities : Capabilities
  pub registered_at : ℕ
  pub last_seen : ℕ
  pub run_state : Option RunState
  pub seq : ℕ
  pub port : Option ℕ
  pub model : Option String
  pub profile : Option String
  pub backend : Option String
  pub max_concurrent_requests : Option ℕ
  pub transport : Transport
  pub tunnel_rtt : Option ℕ

-- `self.profile or self.model`: the empty text counts as absent.
unfoldable pub served_name : NodeRecord → Option String
served_name r = elim r.profile [
  | none ↦ r.model
  | some p ↦ if oumigo.Prelude.◌==ₛ◌ p "" then r.model else some p
]

pub record Registry : Type 0 where
  pub nodes : Dict NodeRecord
  pub last_seq : ℕ

unfoldable pub empty : Registry
empty = record { nodes = []; last_seq = 0 }

-- The arguments of `register`.
pub record Registration : Type 0 where
  pub node_id : String
  pub address : String
  pub state : NodeState
  pub incarnation : ℕ
  pub capabilities : Capabilities
  pub port : Option ℕ
  pub model : Option String
  pub backend : Option String
  pub transport : Transport
  pub profile : Option String

-- The record that `register` builds, from the one that it replaces.
unfoldable pub registered : Registration → Option NodeRecord → ℕ → ℕ → NodeRecord
registered q existing seq now = record {
  node_id = q.node_id;
  address = q.address;
  state = q.state;
  incarnation = q.incarnation;
  capabilities = q.capabilities;
  registered_at = elim existing [ none ↦ now | some e ↦ e.registered_at ];
  last_seen = now;
  run_state = none;
  seq = seq;
  port = or_else q.port (elim existing [ none ↦ none | some e ↦ e.port ]);
  model = or_else q.model (elim existing [ none ↦ none | some e ↦ e.model ]);
  profile = or_else q.profile (elim existing [ none ↦ none | some e ↦ e.profile ]);
  backend = or_else q.backend (elim existing [ none ↦ none | some e ↦ e.backend ]);
  max_concurrent_requests = elim existing [ none ↦ none | some e ↦ e.max_concurrent_requests ];
  transport = q.transport;
  tunnel_rtt = none;
}

-- The number that `register` gives, and the counter after it.
unfoldable pub next_seq : Option NodeRecord → ℕ → ℕ × ℕ
next_seq none last = (last + 1, last + 1)
next_seq (some e) last = (e.seq, last)

unfoldable pub register : Registry → Registration → ℕ → Registry × NodeRecord
unfolding next_seq registered
register g q now =
    let existing = get q.node_id g.nodes in
    let (seq, last) = next_seq existing g.last_seq in
    let r = registered q existing seq now in
    (record { nodes = put q.node_id r g.nodes; last_seq = last }, r)

-- The arguments of `heartbeat`.
pub record Beat : Type 0 where
  pub node_id : String
  pub state : NodeState
  pub run_state : Option RunState
  pub port : Option ℕ
  pub max_concurrent_requests : Option ℕ
  pub tunnel_rtt : Option ℕ

unfoldable pub beaten : Beat → NodeRecord → ℕ → NodeRecord
beaten b r now = record r {
  last_seen = now;
  state = b.state;
  run_state = b.run_state;
  port = or_else b.port r.port;
  max_concurrent_requests = or_else b.max_concurrent_requests r.max_concurrent_requests;
  tunnel_rtt = or_else b.tunnel_rtt r.tunnel_rtt;
}

unfoldable pub heartbeat : Registry → Beat → ℕ → Registry × Bool
unfolding beaten
heartbeat g b now = elim (get b.node_id g.nodes) [
  | none ↦ (g, false)
  | some r ↦ (record g { nodes = put b.node_id (beaten b r now) g.nodes }, true)
]

pub find : Registry → String → Option NodeRecord
find g k = get k g.nodes

-- `remove`, which forgets a node.
unfoldable pub forget : Registry → String → Registry × Bool
forget g k = (record g { nodes = remove k g.nodes }, is_some (get k g.nodes))

unfoldable pub list : Registry → List NodeRecord
list g = values g.nodes

pub count : Registry → ℕ
count g = length g.nodes

abbrev pub is_lost : NodeState → Bool
is_lost NodeState.lost = true
is_lost _ = false

-- `-` stops at 0 where the clock went back; the test against a time-out is false there too.
pub silent_beyond : ℕ → ℕ → NodeRecord → Bool
silent_beyond now limit r = ltb limit (now - r.last_seen)

-- What `reap` works on: the map, and the two lists that it reports.
pub record Reap : Type 0 where
  pub nodes : Dict NodeRecord
  pub newly_lost : List String
  pub removed : List String

pub reap_entry : ℕ → ℕ → ℕ → String → NodeRecord → Reap → Reap
reap_entry now timeout forget_after k r s =
    if silent_beyond now forget_after r
    then record s { nodes = remove k s.nodes; removed = s.removed ++ k ∷ [] }
    else if silent_beyond now timeout r && not (is_lost r.state)
    then record s {
      nodes = put k (record r { state = NodeState.lost }) s.nodes;
      newly_lost = s.newly_lost ++ k ∷ [];
    }
    else s

-- The loop of `reap` over a copy of the entries.
pub reap_loop : ℕ → ℕ → ℕ → Dict NodeRecord → Reap → Reap
reap_loop now timeout forget_after [] s = s
reap_loop now timeout forget_after ((k, r) ∷ d) s =
    reap_loop now timeout forget_after d (reap_entry now timeout forget_after k r s)

pub reap : Registry → ℕ → ℕ → ℕ → Registry × Reap
reap g timeout forget_after now =
    let s =
      reap_loop now timeout forget_after g.nodes
        (record { nodes = g.nodes; newly_lost = []; removed = [] }) in
    (record g { nodes = s.nodes }, s)

-- The calls that change the registry, each with the time at which it is made.
pub data Call : Type 0 where
  registers : Registration → Call
  beats : Beat → Call
  forgets : String → Call
  reaps : ℕ → ℕ → Call

abbrev pub step : Registry → ℕ × Call → Registry
step g (now, registers q) = (register g q now).0
step g (now, beats b) = (heartbeat g b now).0
step g (now, forgets k) = (forget g k).0
step g (now, reaps timeout forget_after) = (reap g timeout forget_after now).0

unfoldable pub run : Registry → List (ℕ × Call) → Registry
run g [] = g
run g (c ∷ cs) = run (step g c) cs
