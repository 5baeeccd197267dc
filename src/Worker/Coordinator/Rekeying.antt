-- ===== src/Worker/Coordinator/Rekeying.antt =====
-- What a changed backend key does to a node: `_reregister`, then `_reconcile`.
use oumigo.Prelude.{
  ℕ, ◌≤◌, ◌≡◌, refl, ap, ◌∙◌, true, false, String, List, ◌∷◌, Option, none, some, arith,
}
use oumigo.Protocol.{failed}
use oumigo.Worker.Coordinator.{
  Effect, Node, Backend, Crash, stopped_backend, reconcile, handle_crash,
}
use oumigo.Worker.Coordinator.Session.{
  RegisterResponse, RegisterReply, accepted, is_set, same_text, rejoin, reregister, adopt_token,
  adopt_key, wake,
}

-- What `m` has of `n`.
pub record Keeps (n m : Node) : Type 0 where
  pub state : m.node_state ≡ n.node_state
  pub run : m.run_state ≡ n.run_state
  pub process : m.supervisor ≡ n.supervisor
  pub count : m.restarts ≡ n.restarts
  pub budget : m.max_restarts ≡ n.max_restarts

Keeps-refl : (n : Node) → Keeps n n
Keeps-refl n = record { state = refl; run = refl; process = refl; count = refl; budget = refl }

Keeps-trans : (n m o : Node) → Keeps n m → Keeps m o → Keeps n o
Keeps-trans n m o a b = record {
  state = b.state ∙ a.state;
  run = b.run ∙ a.run;
  process = b.process ∙ a.process;
  count = b.count ∙ a.count;
  budget = b.budget ∙ a.budget;
}

adopt_token-Keeps : (t : Option String) (n : Node) → Keeps n (adopt_token t n)
unfolding adopt_token
adopt_token-Keeps t n = ground arith

wake-Keeps : (n : Node) → Keeps n (wake n)
unfolding wake
wake-Keeps n = ground arith

adopt_key-Keeps : (key : Option String) (n : Node) → Keeps n (adopt_key key n)
unfolding adopt_key
adopt_key-Keeps key n = ground arith

-- The node when the response's token is adopted and its tunnels are woken.
abbrev admitted : RegisterResponse → Node → Node
admitted r n = wake (adopt_token r.node_token n)

admitted-Keeps : (r : RegisterResponse) (n : Node) → Keeps n (admitted r n)
admitted-Keeps r n = Keeps-trans n _ _ (adopt_token-Keeps r.node_token n) (wake-Keeps _)

rejoined-Keeps :
    (r : Option RegisterResponse) (n : Node)
    → Keeps n (elim r [ none ↦ n | some r ↦ adopt_key r.vllm_api_key (admitted r n) ])
rejoined-Keeps none n = Keeps-refl n
rejoined-Keeps (some r) n =
    Keeps-trans n _ _ (admitted-Keeps r n) (adopt_key-Keeps r.vllm_api_key (admitted r n))

-- A registration during the run, whatever its calls answer, leaves the state, the run state, the
-- backend process and the count of restarts as they were.
reregister-Keeps : (a b : RegisterReply) (n : Node) → Keeps n (reregister a b n)
unfolding reregister
reregister-Keeps a b n = rejoined-Keeps (rejoin n a b) n

wake-api_key : (n : Node) → (wake n).api_key ≡ n.api_key
unfolding wake
wake-api_key n = ground arith

adopt_token-api_key : (t : Option String) (n : Node) → (adopt_token t n).api_key ≡ n.api_key
unfolding adopt_token
adopt_token-api_key t n = ground arith

adopt_key-log :
    (key : Option String) (n : Node) (port : ℕ)
    → n.supervisor ≡ some port
    → is_set key ≡ true
    → same_text key n.api_key ≡ false
    → (adopt_key key n).log ≡ stopped_backend ∷ n.log
unfolding adopt_key
adopt_key-log key n port p k d = ground (arith, p, k, d)

reconcile_spent :
    (b : Backend) (c : Crash) (n : Node) (port : ℕ)
    → n.supervisor ≡ some port
    → b.running ≡ false
    → n.max_restarts ≤ n.restarts
    → (reconcile b c n).node_state ≡ failed
unfolding reconcile handle_crash
reconcile_spent b c n port p h m = ground (arith, p, h, m)

-- When the manager knows a node no more, accepts its new registration and hands it another key, the
-- node stops its backend itself; and if no restart is left, the next pass over the backend, which
-- then does not run, takes the node to FAILED.
pub rekey_fails :
    (r : RegisterResponse) (second : RegisterReply) (b : Backend) (c : Crash) (n : Node) (port : ℕ)
    → n.supervisor ≡ some port
    → is_set r.vllm_api_key ≡ true
    → same_text r.vllm_api_key n.api_key ≡ false
    → b.running ≡ false
    → n.max_restarts ≤ n.restarts
    → ((before : List Effect) × ((reregister (accepted r) second n).log ≡ stopped_backend ∷ before))
      × ((reconcile b c (reregister (accepted r) second n)).node_state ≡ failed)
unfolding reregister rejoin
rekey_fails r second b c n port p k d h m =
    let kept = admitted-Keeps r n in
    let all_kept = reregister-Keeps (accepted r) second n in
    let same : (admitted r n).api_key ≡ n.api_key =
      wake-api_key (adopt_token r.node_token n) ∙ adopt_token-api_key r.node_token n in
    (
      (
        (admitted r n).log,
        adopt_key-log r.vllm_api_key (admitted r n) port (kept.process ∙ p) k
            (ap (same_text r.vllm_api_key) same ∙ d),
      ),
      reconcile_spent b c _ port (all_kept.process ∙ p) h
          (omega (arith, all_kept.count, all_kept.budget, m)),
    )
