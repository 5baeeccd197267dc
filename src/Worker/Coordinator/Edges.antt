-- ===== src/Worker/Coordinator/Edges.antt =====
-- Which way one pass of `_reconcile` may take the state of a node, and why.
use oumigo.Prelude.{
  ℕ, ◌≤◌, ◌<◌, ◌≡◌, refl, sym, subst, ◌∙◌, ap, inl, inr, ◌⊎◌, ◌&&◌, Bool, true, false,
  if◌then◌else◌, leb, arith, Bool-cases,
}
use oumigo.Protocol.{NodeState, initializing, serving, failed}
use oumigo.Worker.Ports.{Found, find_free_port, free, unavailable, os_error}
use oumigo.Worker.Coordinator.{
  is_initializing, Node, Backend, Crash, select_port, launch, relaunch, handle_crash, come_up,
  observe, reconcile, preferred_port,
}
use oumigo.Worker.Coordinator.Invariant.{on_signals_keeps}

Found-cases : (f : Found) → ((p : ℕ) × (f ≡ free p)) ⊎ ((f ≡ unavailable) ⊎ (f ≡ os_error))
Found-cases (free p) = inl (p, refl)
Found-cases unavailable = inr (inl refl)
Found-cases os_error = inr (inr refl)

-- The edges out of the state of `n`, each with its reason.
pub data Edge (b : Backend) (c : Crash) (n : Node) : NodeState → Type 0 where
  stays : Edge b c n n.node_state
  answers : n.node_state ≡ initializing → b.running ≡ true → b.healthy ≡ true → Edge b c n serving
  restarts : b.running ≡ false → n.restarts < n.max_restarts → Edge b c n initializing
  spent : b.running ≡ false → n.max_restarts ≤ n.restarts → Edge b c n failed
  portless :
      b.running ≡ false
      → n.restarts < n.max_restarts
      → find_free_port c.bind (preferred_port n) ≡ unavailable
      → Edge b c n failed

come_up-Edge :
    (b : Backend) (c : Crash) (n : Node) → b.running ≡ true → Edge b c n (come_up b n).node_state
unfolding come_up
come_up-Edge b c n r = elim (Bool-cases (is_initializing n.node_state && b.healthy)) [
  | inl e ↦ rw e (answers (ground (arith, e)) r (ground (arith, e)))
  | inr e ↦ rw e stays
]

observe-Edge :
    (b : Backend) (c : Crash) (n : Node) → b.running ≡ true → Edge b c n (observe b n).node_state
unfolding observe
observe-Edge b c n r = subst (Edge b c n) (ground arith) (come_up-Edge b c n r)

-- What a crash leaves for the restart, whatever signals come in.
record IsFresh (n m : Node) : Type 0 where
  initializes : m.node_state ≡ initializing
  prefers : preferred_port m ≡ preferred_port n

flagged-IsFresh :
    (n m : Node) (a b : Bool) → IsFresh n m → IsFresh n (record m { stop = a; force = b })
flagged-IsFresh n m a b f = record { initializes = f.initializes; prefers = f.prefers }

relaunch_state :
    (c : Crash) (m : Node)
    → ((relaunch c m).node_state ≡ m.node_state)
      ⊎ (((relaunch c m).node_state ≡ failed)
          × (find_free_port c.bind (preferred_port m) ≡ unavailable))
unfolding relaunch select_port launch
relaunch_state c m = elim (Found-cases (find_free_port c.bind (preferred_port m))) [
  | inl (p, e) ↦ inl (ground (arith, e))
  | inr (inl e) ↦ inr (ground (arith, e), e)
  | inr (inr e) ↦ inl (ground (arith, e))
]

relaunch-Edge :
    (b : Backend) (c : Crash) (n m : Node)
    → IsFresh n m
    → b.running ≡ false
    → n.restarts < n.max_restarts
    → Edge b c n (relaunch c m).node_state
relaunch-Edge b c n m f r h = elim (relaunch_state c m) [
  | inl e ↦ subst (Edge b c n) (sym (e ∙ f.initializes)) (restarts r h)
  | inr (e, u) ↦
      subst (Edge b c n) (sym e) (portless r h (ap (find_free_port c.bind) (sym f.prefers) ∙ u))
]

relaunch_unless-Edge :
    (stop : Bool) (b : Backend) (c : Crash) (n m : Node)
    → IsFresh n m
    → b.running ≡ false
    → n.restarts < n.max_restarts
    → Edge b c n (if stop then m else relaunch c m).node_state
relaunch_unless-Edge true b c n m f r h = subst (Edge b c n) (sym f.initializes) (restarts r h)
relaunch_unless-Edge false b c n m f r h = relaunch-Edge b c n m f r h

handle_crash-Edge :
    (b : Backend) (c : Crash) (n : Node)
    → b.running ≡ false
    → Edge b c n (handle_crash c n).node_state
unfolding handle_crash
handle_crash-Edge b c n r = elim (Bool-cases (leb n.max_restarts n.restarts)) [
  | inl e ↦ rw e (spent r (ground (arith, e)))
  | inr e ↦ rw e (
      relaunch_unless-Edge _ b c n _
        (on_signals_keeps (IsFresh n) (flagged-IsFresh n) c.signals _
          (record { initializes = refl; prefers = refl }))
        r (ground (arith, e)))
]

-- The three ways of one pass.
reconcile-cases :
    (b : Backend) (c : Crash) (n : Node)
    → (reconcile b c n ≡ n)
      ⊎ (((b.running ≡ true) × (reconcile b c n ≡ observe b n))
          ⊎ ((b.running ≡ false) × (reconcile b c n ≡ handle_crash c n)))
unfolding reconcile
reconcile-cases b c n = ground arith

-- One pass of `_reconcile` keeps the state, or takes INITIALIZING to SERVING when the backend runs
-- and is healthy, or, when the backend does not run, goes to INITIALIZING if a restart is left, and
-- to FAILED if none is left or no port can be bound.
pub reconcile-Edge : (b : Backend) (c : Crash) (n : Node) → Edge b c n (reconcile b c n).node_state
reconcile-Edge b c n = elim (reconcile-cases b c n) [
  | inl e ↦ subst (λ m. Edge b c n m.node_state) (sym e) stays
  | inr (inl (r, e)) ↦ subst (λ m. Edge b c n m.node_state) (sym e) (observe-Edge b c n r)
  | inr (inr (r, e)) ↦ subst (λ m. Edge b c n m.node_state) (sym e) (handle_crash-Edge b c n r)
]
