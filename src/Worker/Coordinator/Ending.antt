-- ===== src/Worker/Coordinator/Ending.antt =====
-- How the run of a node ends: the drain of its requests, and its last heartbeat.
use oumigo.Prelude.{
  ℕ, zero, suc, ◌+◌, ◌-◌, ◌≤◌, ◌≡◌, refl, ◌∙◌, inl, inr, Bool, false, ◌&&◌, not, none, some, List,
  ◌∷◌, ltb, min, is_some, arith, Bool-cases,
}
use oumigo.Protocol.{draining, stopped, executing}
use oumigo.Worker.Coordinator.{
  Node, Effect, beat, Reply, acked, forbidden, no_reply, on_signals, send_heartbeat, is_failed,
}
use oumigo.Worker.Coordinator.Invariant.{on_signals_keeps}
use oumigo.Worker.Coordinator.Session.{
  DrainTick, drain_loop, is_executing, drain_and_stop, settle, halt_backend, finish,
}

send_heartbeat-interval : (r : Reply) (n : Node) → (send_heartbeat r n).0.interval ≡ n.interval
unfolding send_heartbeat
send_heartbeat-interval (acked resp) n = refl
send_heartbeat-interval forbidden n = refl
send_heartbeat-interval no_reply n = refl

on_signals-interval : (k : ℕ) (n : Node) → (on_signals k n).interval ≡ n.interval
on_signals-interval k n = on_signals_keeps (λ m. m.interval ≡ n.interval) (λ m a b e. e) k n refl

-- The node of the next round of the drain, and the time of it.
abbrev next_node : DrainTick → Node → Node
next_node t n =
    (send_heartbeat t.reply (record (on_signals t.signals n) { run_state = some executing })).0

abbrev next_time : DrainTick → ℕ → ℕ → Node → ℕ
next_time t deadline now n =
    let later = now + t.took in later + min (on_signals t.signals n).interval (deadline - later)

next_node-interval : (t : DrainTick) (n : Node) → (next_node t n).interval ≡ n.interval
next_node-interval t n = send_heartbeat-interval t.reply _ ∙ on_signals-interval t.signals n

-- The drain ends by its deadline, whatever its rounds meet: while the wait between two rounds is at
-- least one unit of time, as many rounds as units are left, and one more, are enough.
drain_loop_ends :
    (fuel : ℕ) (env : ℕ → DrainTick) (k deadline now : ℕ) (n : Node)
    → 1 ≤ n.interval
    → deadline ≤ now + fuel
    → (m : Node) × (drain_loop (suc fuel) env k deadline now n ≡ some m)
unfolding drain_loop
drain_loop_ends zero env k deadline now n i h = (on_signals (env k).signals n, ground (arith, h))
drain_loop_ends (suc fuel) env k deadline now n i h = elim (Bool-cases (ltb now deadline)) [
  | inr e ↦ (on_signals (env k).signals n, ground (arith, e))
  | inl e ↦
      let (m, ends) =
        drain_loop_ends fuel env (k + 1) deadline (next_time (env k) deadline now n)
          (next_node (env k) n) (rw (next_node-interval (env k) n) i)
          (ground (arith, i, h, e, on_signals-interval (env k).signals n)) in
      elim (Bool-cases (not (on_signals (env k).signals n).force && is_executing (env k).load)) [
        | inl go ↦ (m, ground (arith, ends, e, go))
        | inr stop ↦ (on_signals (env k).signals n, ground (arith, stop))
      ]
]

-- The last heartbeat says that the node has stopped.
settle_lem :
    (r : Reply) (n : Node)
    → ((settle r n).node_state ≡ stopped)
      × ((settle r n).run_state ≡ none)
      × ((settle r n).log ≡ beat stopped none ∷ n.log)
unfolding settle send_heartbeat
settle_lem (acked resp) n = (refl, refl, refl)
settle_lem forbidden n = (refl, refl, refl)
settle_lem no_reply n = (refl, refl, refl)

-- What a run that neither failed nor raised ends with.
pub record IsStopped (m : Node) : Type 0 where
  pub stopped_state : m.node_state ≡ stopped
  pub silent : m.run_state ≡ none
  pub before : List Effect
  pub told : m.log ≡ beat stopped none ∷ before

settle-IsStopped : (r : Reply) (n : Node) → IsStopped (settle r n)
settle-IsStopped r n =
    let (s, q, l) = settle_lem r n in
    record { stopped_state = s; silent = q; before = n.log; told = l }

drain_and_stop_ends :
    (fuel : ℕ) (running : Bool) (env : ℕ → DrainTick) (drain_timeout now : ℕ) (last : Reply)
    (n : Node)
    → 1 ≤ n.interval
    → drain_timeout ≤ fuel
    → (m : Node) × (drain_and_stop (suc fuel) running env drain_timeout now last n ≡ some m)
      × IsStopped m
unfolding drain_and_stop
drain_and_stop_ends fuel running env drain_timeout now last n i h =
    let (m, e) =
      drain_loop_ends fuel env 0 (now + drain_timeout) now (record n { node_state = draining }) i
        (omega (arith, h)) in
    elim (Bool-cases (is_some n.supervisor && running)) [
      | inl a ↦ (settle last (halt_backend m), ground (arith, a, e), settle-IsStopped last _)
      | inr a ↦ (settle last n, ground (arith, a), settle-IsStopped last n)
    ]

-- A node that comes out of its loop neither failed nor by an exception ends STOPPED and without a
-- run state, and the last it sends is a heartbeat that says so: that holds whatever the drain meets,
-- where it may take as many rounds as the drain timeout has units, and one more.
pub finish_stops :
    (fuel : ℕ) (running : Bool) (env : ℕ → DrainTick) (drain_timeout now : ℕ) (last : Reply)
    (n : Node)
    → 1 ≤ n.interval
    → drain_timeout ≤ fuel
    → n.raised ≡ false
    → is_failed n.node_state ≡ false
    → (m : Node) × (finish (suc fuel) running env drain_timeout now last n ≡ some m) × IsStopped m
unfolding finish
finish_stops fuel running env drain_timeout now last n i h r f =
    let (m, e, s) = drain_and_stop_ends fuel running env drain_timeout now last n i h in
    (m, ground (arith, e, r, f), s)
