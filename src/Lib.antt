-- ===== src/Lib.antt =====
-- Verification of OumiGo: the manager that registers worker nodes and routes requests to them, the
-- worker node that supervises a model backend, the guardrail chain of an agent, and the
-- credentials, the catalog and the metrics around them.
--
-- The manager keeps one registry of its nodes. Workers write to it by registrations and
-- heartbeats, and a periodic reap marks silent nodes LOST and forgets those that stay silent. The
-- router reads the same registry: its pool admits a request to a routable worker with a free slot,
-- or lets it wait in one queue. A worker registers, starts its backend, reports its state at each
-- heartbeat, restarts the backend after a crash, and drains it before it stops. A worker joins
-- with a credential, which the manager's authenticator checks against its store before a handler
-- touches the registry, and acts from then on with the token of its node. It samples metrics into
-- a buffer and reports them to the manager's store. An agent's chat asks a model in rounds and
-- runs the tools that it calls. Its guards screen what passes an intercept point.
--
-- Files, and the code that each is about:
--
-- - Prelude and its children: Boolean tests, lists, texts and association lists over the native
--   numbers.
-- - Protocol: src/oumigo/protocol/states.py and messages.py, the enumerations that the parts
--   share.
-- - Registry: src/oumigo/service/manager/control/registry.py. `Registry` is the object, a dict of
--   records and the counter of display names; `register`, `heartbeat`, `find` (get), `forget`
--   (remove), `list`, `count` and `reap` are its methods. `Call`, `step` and `run` are the calls
--   that the control plane makes, in the order of its lock. Registry.Reaping, Registry.Validity
--   and Registry.Naming hold the proofs.
-- - Router.Pool: `WorkerPool` of src/oumigo/service/manager/router/server.py. `acquire` is the
--   method up to its wait, `give_up` its handler for a wait that failed, `cancel` the time-out or
--   disconnect that fails it; `promote` is `_promote`, `release` is `release`. The generator
--   behind `random.choice` is a parameter that returns some member of the list. Futures are
--   numbers in a map. Router.Pool.Slots is the step relation of the requests behind the slots:
--   arrivals, waits, time-outs, ends, ticks of the promoter and changes of the fleet, in any
--   order.
-- - Router.Forward: `_served`, `_known`, `_not_ready`, the start of `_forward` and
--   `_send_with_retry` of src/oumigo/service/manager/router/server.py. `find_worker` is `_forward`
--   up to the worker, or to the wait for one.
-- - Router.Shaping: src/oumigo/service/manager/router/shaping.py. `cap_audio` walks the messages
--   and their parts with the local variables of the source in a `Tally`; `wav_seconds` scans a
--   header with fuel; `clamp_output_tokens` treats the two fields. The floats and the two library
--   calls are a parameter.
-- - Guard: src/oumigo/guard/verdict.py, points.py, chain.py and profile.py.
-- - Worker.Ports: `find_free_port` of src/oumigo/service/worker/supervisor.py, with the answers of
--   bind as a parameter.
-- - Worker.Coordinator: `WorkerCoordinator` of src/oumigo/service/worker/coordinator.py:
--   `reconcile`, `handle_crash`, `select_port` and `send_heartbeat` are the methods of these
--   names, and Worker.Coordinator.Session has `_loop`, `_reregister`, `_drain_and_stop` and the
--   end of `run`; Worker.Coordinator.Startup has the constructor and the start of `run`. What a
--   node meets outside (the backend, the manager, signals, free ports) is an argument of each
--   step, and what it does outside is a log.
-- - Worker.Metrics: the buffer, the tracker of the request rate and the collector of
--   src/oumigo/service/worker/metrics.py. `collector_step` is what the sampler's and the
--   reporter's threads do, each step under the buffer's lock, in any order.
-- - Catalog: src/oumigo/config/catalog.py and spec.py. `load_profiles`, `from_config`,
--   `from_block` and `legacy_profile` have the names of the source; a tree of files is a list of
--   profiles with the stems of their paths.
-- - Manager.Credentials: `AuthStore` of src/oumigo/service/manager/credentials.py, a table as a
--   list of rows, and in Manager.Credentials.Authenticator its `Authenticator`.
--   Manager.Credentials.Calls has the calls that the manager and the command line make of the
--   store.
-- - Manager.Access: `FailureLimiter` of src/oumigo/service/manager/access.py; `note` is its
--   `record`.
-- - Manager.Store: src/oumigo/service/manager/control/store.py, the table as a list of rows by
--   key.
-- - Manager.Control: the worker-facing handlers of `create_app` in
--   src/oumigo/service/manager/control/server.py, over the registry, the credentials, the limiter
--   and the store, and `_revocation_loop`.
-- - Manager.Tunnel and Manager.Tunnels: `TunnelConn` and `TunnelRegistry` of
--   src/oumigo/service/manager/tunnel.py. `acquire` is the method up to its wait, and `finish` the
--   end of the wait.
-- - Agent.Turn, Agent.Tools and Agent.Chat: a turn of `OumiGoChat` of src/oumigo/api/agent/chat.py
--   without streaming. Turn has the agent and what a turn keeps; Tools the call of a tool,
--   `execute_tool` and `invoke_guarded`; Chat the round-trip `complete_turn`, `guard_output`, and
--   `run`, which is `_run`. Agent.History: the history of a chat, from a stored one on and over
--   its requests; `start` is what `__init__` makes of it. Agent.Guarded: the agent under a chain
--   of Guard, where `guard` is `_guard`.
--
-- Fuel: the loop of the drain takes its rounds as fuel. A round waits for the heartbeat interval
-- or up to the deadline, so that one round to a unit of the drain timeout, and one more, is enough
-- as long as the interval is at least one unit. The loop of the coordinator runs over the list of
-- the rounds that it meets, and the scan for a port over its 64 tries. A round of the scan of a
-- WAV header moves at least nine bytes on, so that one round to a byte, and one more, is enough.
-- The loop of the retries takes the attempts that are allowed. A turn of the eviction drops a row,
-- so that one turn to a row is enough.
--
-- Times are natural numbers of one unit. Locks are not modelled: each method under a lock is one
-- step. Not modelled: message formats, HTTP, logging, sockets and processes; what the worker reads
-- of /proc, of the GPU and of vLLM, the worker's side of the tunnels, the settings, the dashboard,
-- and the agents' streamed turns and their library of tools.
pub mod Prelude
pub mod Protocol
pub mod Registry
pub mod Router
pub mod Guard
pub mod Worker
pub mod Catalog
pub mod Manager
pub mod Agent
