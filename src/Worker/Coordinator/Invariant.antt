-- ===== src/Worker/Coordinator/Invariant.antt =====
-- What holds of a node between the rounds of its loop, and which way its state may go.
use oumigo.Prelude.{
  ℕ, zero, suc, ◌+◌, ◌≤◌, ◌<◌, ◌≡◌, sym, ap, subst, ◌∙◌, inl, inr, String, Bool, true, false,
  Option, none, some, List, [], ◌∷◌, if◌then◌else◌, leb, is_some, arith, Bool-cases,
}
use oumigo.Protocol.{NodeState, initializing, serving, failed}
use oumigo.Worker.Coordinator.{
  acked, forbidden, no_reply, Effect, started, Metrics, Node, Backend, Crash, stamp, on_signals,
  select_port, launch, relaunch, handle_crash, is_serving, come_up, observe, reconcile,
  HeartbeatResponse, Reply, send_heartbeat, Tunnel,
}
use oumigo.Worker.Coordinator.Session.{
  RegisterResponse, retoken, resize, RegisterReply, Tick, adopt_token, adopt_key, wake, reregister,
  rejoin, act, round, loop,
}

-- How often the backend was started.
abbrev starts : List Effect → ℕ
starts [] = 0
starts (started port ∷ es) = suc (starts es)
starts (e ∷ es) = starts es

-- The start stamp is there just while the node serves.
abbrev IsStamped : Option Metrics → NodeState → Type 0
IsStamped none s = Unit
IsStamped (some m) s = m.stamped ≡ is_serving s

abbrev is_looping : NodeState → Bool
is_looping initializing = true
is_looping serving = true
is_looping failed = true
is_looping _ = false

pub record IsSound (n : Node) : Type 0 where
  pub looping : is_looping n.node_state ≡ true
  pub bounded : n.restarts ≤ n.max_restarts
  pub quiet : is_some n.run_state ≡ true → n.node_state ≡ serving
  pub stamped : IsStamped n.metrics n.node_state
  pub launches : starts n.log ≤ suc n.restarts

-- Signals set the two flags and nothing else: what does not speak of the flags stays.
signal_keeps :
    (P : Node → Type 0)
    → ((m : Node) (a b : Bool) → P m → P (record m { stop = a; force = b }))
    → (b : Bool) (n : Node) → P n
    → P (if b then record n { force = true } else record n { stop = true })
signal_keeps P flagged true n p = flagged n n.stop true p
signal_keeps P flagged false n p = flagged n true n.force p

pub on_signals_keeps :
    (P : Node → Type 0)
    → ((m : Node) (a b : Bool) → P m → P (record m { stop = a; force = b }))
    → (k : ℕ) (n : Node) → P n
    → P (on_signals k n)
unfolding on_signals
on_signals_keeps P flagged zero n p = p
on_signals_keeps P flagged (suc k) n p =
    on_signals_keeps P flagged k _ (signal_keeps P flagged n.stop n p)

flagged-IsSound : (n : Node) (a b : Bool) → IsSound n → IsSound (record n { stop = a; force = b })
flagged-IsSound n a b s = record {
  looping = s.looping;
  bounded = s.bounded;
  quiet = s.quiet;
  stamped = s.stamped;
  launches = s.launches;
}

on_signals-IsSound : (k : ℕ) (n : Node) → IsSound n → IsSound (on_signals k n)
on_signals-IsSound = on_signals_keeps IsSound flagged-IsSound

observe-IsSound : (b : Backend) (n : Node) → IsSound n → IsSound (observe b n)
unfolding observe come_up
observe-IsSound b n s = ground arith

-- A node whose backend is gone, and that may start it once more.
record IsDown (n : Node) : Type 0 where
  initializes : n.node_state ≡ initializing
  bounded : n.restarts ≤ n.max_restarts
  silent : n.run_state ≡ none
  stamped : IsStamped n.metrics initializing
  launches : starts n.log ≤ n.restarts

IsDown-IsSound : (n : Node) → IsDown n → IsSound n
IsDown-IsSound n d = record {
  looping = ap is_looping d.initializes;
  bounded = d.bounded;
  quiet = λ q. d.initializes ∙ absurd (cc (sym q ∙ ap is_some d.silent));
  stamped = subst (IsStamped n.metrics) (sym d.initializes) d.stamped;
  launches = omega (arith, d.launches);
}

relaunch-IsSound : (c : Crash) (n : Node) → IsDown n → IsSound (relaunch c n)
unfolding relaunch select_port launch
relaunch-IsSound c n d = ground arith

flagged-IsDown : (n : Node) (a b : Bool) → IsDown n → IsDown (record n { stop = a; force = b })
flagged-IsDown n a b s = record {
  initializes = s.initializes;
  bounded = s.bounded;
  silent = s.silent;
  stamped = s.stamped;
  launches = s.launches;
}

-- The node after a crash that it may answer by a restart, before the backoff.
abbrev crashed : Node → Node
crashed n = record n {
  run_state = none;
  metrics = stamp false n.metrics;
  restarts = n.restarts + 1;
  node_state = initializing;
}

crashed-IsDown : (n : Node) → n.restarts < n.max_restarts → IsSound n → IsDown (crashed n)
crashed-IsDown n h s = ground arith

relaunch_unless-IsSound :
    (b : Bool) (c : Crash) (n : Node) → IsDown n → IsSound (if b then n else relaunch c n)
relaunch_unless-IsSound true c n d = IsDown-IsSound n d
relaunch_unless-IsSound false c n d = relaunch-IsSound c n d

handle_crash-IsSound : (c : Crash) (n : Node) → IsSound n → IsSound (handle_crash c n)
unfolding handle_crash
handle_crash-IsSound c n s = elim (Bool-cases (leb n.max_restarts n.restarts)) [
  | inl e ↦ rw e (ground arith)
  | inr e ↦ rw e (
      relaunch_unless-IsSound _ c _ (
        on_signals_keeps IsDown flagged-IsDown c.signals (crashed n)
          (crashed-IsDown n (ground (arith, e)) s)))
]

reconcile-IsSound : (b : Backend) (c : Crash) (n : Node) → IsSound n → IsSound (reconcile b c n)
unfolding reconcile
reconcile-IsSound b c n s = ground (arith, observe-IsSound b n, handle_crash-IsSound c n)

send_heartbeat-IsSound : (r : Reply) (n : Node) → IsSound n → IsSound (send_heartbeat r n).0
unfolding send_heartbeat
send_heartbeat-IsSound (acked resp) n s = ground arith
send_heartbeat-IsSound forbidden n s = ground arith
send_heartbeat-IsSound no_reply n s = ground arith

retoken-IsStamped :
    (t : Option String) (m : Option Metrics) (s : NodeState)
    → IsStamped m s
    → IsStamped (retoken t m) s
retoken-IsStamped t none s h = h
retoken-IsStamped t (some m) s h = h

adopt_token-IsSound : (t : Option String) (n : Node) → IsSound n → IsSound (adopt_token t n)
unfolding adopt_token
adopt_token-IsSound t n s = ground (arith, retoken-IsStamped t n.metrics n.node_state)

wake-IsSound : (n : Node) → IsSound n → IsSound (wake n)
unfolding wake
wake-IsSound n s = ground arith

adopt_key-IsSound : (key : Option String) (n : Node) → IsSound n → IsSound (adopt_key key n)
unfolding adopt_key
adopt_key-IsSound key n s = ground arith

rejoined-IsSound :
    (r : Option RegisterResponse) (n : Node)
    → IsSound n
    → IsSound (elim r [
      | none ↦ n
      | some r ↦ adopt_key r.vllm_api_key (wake (adopt_token r.node_token n))
    ])
rejoined-IsSound none n s = s
rejoined-IsSound (some r) n s =
    adopt_key-IsSound r.vllm_api_key _ (wake-IsSound _ (adopt_token-IsSound r.node_token n s))

reregister-IsSound : (a b : RegisterReply) (n : Node) → IsSound n → IsSound (reregister a b n)
unfolding reregister
reregister-IsSound a b n s = rejoined-IsSound (rejoin n a b) n s

resized-IsSound : (t : Option Tunnel) (n : Node) → IsSound n → IsSound (record n { tunnel = t })
resized-IsSound t n s = ground arith

act-IsSound :
    (t : Tick) (r : Option HeartbeatResponse) (n : Node) → IsSound n → IsSound (act t r n).0
unfolding act
act-IsSound t none n s = s
act-IsSound t (some r) n s =
    let m = record n { tunnel = resize r.tunnel_pool_size n.tunnel } in
    let sound : IsSound m = resized-IsSound (resize r.tunnel_pool_size n.tunnel) n s in
    let again = reregister-IsSound t.first t.second m sound in
    elim (Bool-cases r.known) [ inl e ↦ rw e (ground arith) | inr e ↦ rw e again ]

round-IsSound : (t : Tick) (n : Node) → IsSound n → IsSound (round t n).0
unfolding round
round-IsSound t n s =
    let m = reconcile t.backend t.crash n in
    let sound = reconcile-IsSound t.backend t.crash n s in
    let sent = send_heartbeat-IsSound t.reply m sound in
    ground (
      arith,
      sound,
      sent,
      act-IsSound t (send_heartbeat t.reply m).1 (send_heartbeat t.reply m).0 sent,
    )

-- A sound node is sound after the loop, whatever its rounds meet: it is INITIALIZING, SERVING or
-- FAILED, it has restarted the backend at most `max_restarts` times and started it at most once more
-- than that, it has a run state only while it serves, and the start stamp of its metrics stands
-- just while it serves.
pub loop-IsSound : (ts : List Tick) (n : Node) → IsSound n → IsSound (loop ts n)
unfolding loop
loop-IsSound [] n s = s
loop-IsSound (t ∷ ts) n s =
    let woken = on_signals-IsSound t.signals n s in
    let now = round-IsSound t (on_signals t.signals n) woken in
    ground (arith, woken, now, loop-IsSound ts (round t (on_signals t.signals n)).0 now)
