-- ===== src/Manager/Tests.antt =====
-- A small manager: texts stand for their own hashes, and a signature shows its key and its text.
use Prim.Native.String.{◌∷◌ as ◌∷ₛ◌, ◌++◌ as ◌++ₛ◌}
use oumigo.Prelude.{
  ℕ, ◌-◌, ◌≤◌, ◌≡◌, ◌≢◌, refl, ◌↔◌, ◌⊎◌, String, Bool, true, false, not, Option, none, some, List,
  [], ◌∷◌, ltb, leb, if◌then◌else◌, inl, inr, or_else, arith, is_some, ◌==ₛ◌,
}
use oumigo.Prelude.Dict.{get, put}
use oumigo.Protocol.{NodeState, Transport}
use oumigo.Registry.{
  register, next_seq, registered, Registry, Registration, Beat, empty, run, registers,
}
use oumigo.Registry.Naming.{run-empty-IsValid}
use oumigo.Manager.Credentials.{
  Platform, AuthStore, JoinToken, ApiKey, node_token, node_from_token, check_join_token,
  revoke_api_key, check_api_key, bearer, is_node_revoked, node_prefix, partition, after_prefix,
  read_token, signed, usable, vllm_api_key, first, mac,
}
use oumigo.Manager.Credentials.Tokens.{IsNamed, node_from_token_iff}
use oumigo.Manager.Credentials.Calls.{AuthCall, checks, issues_key, auth_run}
use oumigo.Manager.Credentials.Uses.{IsLimited, left, admissions, admissions-le-left}
use oumigo.Manager.Credentials.Keys.{revoked_key-stays}
use oumigo.Manager.Credentials.Authenticator.{
  Authenticator, Grants, may_read_spec, join_with, is_reusable, same_text, valid_node,
  unless_revoked, may_act_as, may_act_as_iff, may_register, may_register-refused,
}
use oumigo.Manager.Access.{limiter, blocked, recent, drop_before, times_of}
use oumigo.Manager.Access.Window.{
  Event, fails, looks, IsTimed, events, failed_since, blocked-failed_since,
}
use oumigo.Manager.Store.{Key, Table, ingest, before}
use oumigo.Manager.Store.Upsert.{at, given, at-ingest}
use oumigo.Manager.Control.{
  Setup, Control, Request, RegisterResponse, HeartbeatResponse, worker_source, register_handler,
  heartbeat_handler, revoke_pass, admit, choose, closed, deny, welcome, pool_size,
}
use oumigo.Manager.Control.Refusal.{IsKept, register-refused}
use oumigo.Manager.Control.Rejoin.{register-heartbeat}
use oumigo.Manager.Control.Revocation.{get-revoke_pass}

signature-ne : (k m : String) → ("m" ∷ₛ (k ++ₛ m)) ≢ ""
signature-ne k m e = absurd (cc e)

abbrev P : Platform
P = record {
  sha256 = λ t. t;
  hmac = λ k m. "m" ∷ₛ (k ++ₛ m);
  hmac-ne = signature-ne;
  lower = λ t. t;
  strip = λ t. t;
}

abbrev row : String → Option ℕ → JoinToken
row h uses = record {
  id = h;
  token_hash = h;
  label = none;
  created_at = 0;
  expires_at = some 100;
  uses_left = uses;
  revoked = false;
}

abbrev key_row : ApiKey
key_row = record {
  id = "k1";
  key_hash = "oumigo-key-x";
  label = none;
  created_at = 0;
  revoked = false;
}

abbrev store : AuthStore
store = record {
  secret = "s";
  join_tokens = row "oumigo-join-a" (some 1) ∷ row "oumigo-join-b" none ∷ [];
  api_keys = key_row ∷ [];
  revoked_nodes = ("bad", 7) ∷ [];
}

abbrev w1_token : String
w1_token = "oumigo-node.w1.msnode:w1"

token_test : node_token P store "w1" ≡ w1_token
unfolding node_token oumigo.Manager.Credentials.mac
token_test = refl

read_test : node_from_token P store w1_token ≡ some "w1"
unfolding node_from_token oumigo.Manager.Credentials.read_token
    oumigo.Manager.Credentials.after_prefix oumigo.Manager.Credentials.signed
    oumigo.Manager.Credentials.partition oumigo.Manager.Credentials.mac
read_test = refl

forged_test : node_from_token P store "oumigo-node.w2.msnode:w1" ≡ none
unfolding node_from_token oumigo.Manager.Credentials.read_token
    oumigo.Manager.Credentials.after_prefix oumigo.Manager.Credentials.signed
    oumigo.Manager.Credentials.partition oumigo.Manager.Credentials.mac
forged_test = refl

w1-IsNamed : IsNamed "w1"
w1-IsNamed = (λ e. absurd (cc e), (refl, (refl, tt)))

node_from_token_iff_example :
    (node_from_token P store w1_token ≡ some "w1")
    ↔ ((w1_token ≡ node_token P store "w1") × IsNamed "w1")
node_from_token_iff_example = node_from_token_iff P store w1_token "w1"

abbrev calls : List AuthCall
calls =
    checks "oumigo-join-a" true 5
    ∷ checks "oumigo-join-a" true 6
    ∷ checks "oumigo-join-b" true 7
    ∷ []

admissions_test : admissions P "oumigo-join-a" store calls ≡ 1
unfolding admissions check_join_token oumigo.Manager.Credentials.after_prefix
    oumigo.Manager.Credentials.usable
admissions_test = refl

admissions-le-left_example :
    admissions P "oumigo-join-a" store calls ≤ left "oumigo-join-a" store.join_tokens
unfolding oumigo.Manager.Credentials.Uses.has oumigo.Manager.Credentials.Uses.all_limited
admissions-le-left_example =
    admissions-le-left P "oumigo-join-a" store calls (record { present = refl; all = refl })

revoked_key-stays_example :
    check_api_key P
      (some "oumigo-key-x")
      (auth_run P (revoke_api_key "k1" store).0 (issues_key "y" "k1" 9 none ∷ []))
    ≢ some "k1"
unfolding revoke_api_key
revoked_key-stays_example =
    revoked_key-stays P "k1" store (issues_key "y" "k1" 9 none ∷ []) (some "oumigo-key-x") refl

abbrev auth : Authenticator
auth = record { store = store; reusable_token = none; enforced = true }

may_act_as_iff_example :
    (may_act_as P (some "bearer oumigo-node.w1.msnode:w1") "w1" auth ≡ true) ↔ (
      (is_node_revoked "w1" auth.store ≡ false)
      × ((auth.enforced ≡ false)
          ⊎ ((t : String) × (bearer P (some "bearer oumigo-node.w1.msnode:w1") ≡ some t)
              × Grants P auth "w1" t)))
may_act_as_iff_example = may_act_as_iff P auth (some "bearer oumigo-node.w1.msnode:w1") "w1"

act_test : may_act_as P (some "bearer oumigo-node.w1.msnode:w1") "w1" auth ≡ true
unfolding may_act_as is_node_revoked get oumigo.Manager.Credentials.Authenticator.is_reusable
    oumigo.Manager.Credentials.Authenticator.same_text bearer oumigo.Manager.Credentials.partition
    oumigo.Manager.Credentials.Authenticator.valid_node
    oumigo.Manager.Credentials.Authenticator.unless_revoked node_from_token
    oumigo.Manager.Credentials.read_token oumigo.Manager.Credentials.after_prefix
    oumigo.Manager.Credentials.signed oumigo.Manager.Credentials.mac
act_test = refl

abbrev tries : List (ℕ × Event)
tries =
    (1, fails (some "h"))
    ∷ (50, looks (some "h"))
    ∷ (70, fails (some "h"))
    ∷ (71, fails (some "g"))
    ∷ (75, fails (some "h"))
    ∷ []

tries-IsTimed : IsTimed 0 80 tries
tries-IsTimed =
    (omega arith, (omega arith, (omega arith, (omega arith, (omega arith, omega arith)))))

blocked_test : (blocked (some "h") 80 (events (limiter 2 60) tries)).1 ≡ true
unfolding blocked oumigo.Manager.Access.recent events oumigo.Manager.Access.note limiter
    oumigo.Manager.Access.drop_before oumigo.Manager.Access.times_of get oumigo.Prelude.Dict.put
blocked_test = refl

blocked-failed_since_example :
    (blocked (some "h") 80 (events (limiter 2 60) tries)).1 ≡ leb 2 (failed_since 20 "h" tries)
blocked-failed_since_example = blocked-failed_since 2 60 80 "h" tries tries-IsTimed

abbrev slot : String → Key
slot t = record { node_id = "w1"; metric = "worker:cpu"; timestamp = t }

abbrev rows : Table ℕ
rows = (slot "01:00", 5) ∷ (slot "02:00", 6) ∷ []

abbrev report : List (String × String × ℕ)
report = ("worker:cpu", "02:00", 7) ∷ ("worker:cpu", "02:05", 8) ∷ []

ingest_test : ingest "w1" report "01:30" rows ≡ ((slot "02:00", 7) ∷ (slot "02:05", 8) ∷ [], 2)
unfolding ingest oumigo.Manager.Store.prune oumigo.Manager.Store.upsert_all
    oumigo.Manager.Store.upsert
ingest_test = refl

at-ingest_example : at (slot "02:00") (ingest "w1" report "01:30" rows).0 ≡ (
    if before "02:00" "01:30"
    then none
    else or_else (given "w1" report (slot "02:00")) (at (slot "02:00") rows))
at-ingest_example = at-ingest "w1" "01:30" report (slot "02:00") rows

abbrev setup : Setup
setup = record {
  fleet_spec = none;
  catalog = none;
  vllm_port = none;
  allows = λ h. true;
  heartbeat_interval = 10;
  tunnel_enabled = true;
  tunnel_pool_spare = 1;
  provider_name = "CUSTOM";
}

abbrev manager : Control ℕ
manager = record { auth = auth; registry = empty; limiter = limiter 30 60; metrics = rows }

abbrev joining : String → Registration
joining id = record {
  node_id = id;
  address = "10.0.0.1";
  state = NodeState.registering;
  incarnation = 1;
  capabilities = record { gpu = none; vram_tenths = none };
  port = some 7001;
  model = some "m";
  backend = none;
  transport = Transport.tunnel;
  profile = none;
}

abbrev request : ℕ → String → Request
request t a = record { now = t; tick = t; host = some "h"; authorization = some a }

refused_test :
    (worker_source setup
      (request 5 "bearer oumigo-join-c")
      (register_handler P setup (joining "w1") (request 5 "bearer oumigo-join-c"))
      manager).1
    ≡ inl 401
unfolding worker_source register_handler may_read_spec may_register join_with check_join_token
    is_reusable same_text valid_node unless_revoked bearer partition after_prefix node_from_token
    read_token signed usable is_node_revoked blocked recent limiter drop_before times_of get put
    admit choose closed deny welcome pool_size register next_seq registered node_token vllm_api_key
    first mac
refused_test = refl

register-refused_example :
    IsKept manager
      (worker_source setup
        (request 5 "bearer oumigo-join-c")
        (register_handler P setup (joining "w1") (request 5 "bearer oumigo-join-c"))
        manager).0
register-refused_example =
    register-refused P setup (joining "w1") (request 5 "bearer oumigo-join-c") manager 401
      refused_test

abbrev welcomed : RegisterResponse
welcomed = record {
  accepted = true;
  node_id = "w1";
  heartbeat_interval_s = 10;
  spec = none;
  token = w1_token;
  api_key = some "oumigo-vllm-msvllm:w1";
  tunnel_pool_size = some 5;
}

abbrev first_beat : Beat
first_beat = record {
  node_id = "w1";
  state = NodeState.initializing;
  run_state = none;
  port = none;
  max_concurrent_requests = some 2;
  tunnel_rtt = none;
}

abbrev joined : Control ℕ
joined =
    (worker_source setup (request 5 "bearer oumigo-join-a")
      (register_handler P setup (joining "w1") (request 5 "bearer oumigo-join-a")) manager).0

welcomed_test :
    (worker_source setup
      (request 5 "bearer oumigo-join-a")
      (register_handler P setup (joining "w1") (request 5 "bearer oumigo-join-a"))
      manager).1
    ≡ inr welcomed
unfolding worker_source register_handler may_read_spec may_register join_with check_join_token
    is_reusable same_text valid_node unless_revoked bearer partition after_prefix node_from_token
    read_token signed usable is_node_revoked blocked recent limiter drop_before times_of get put
    admit choose closed deny welcome pool_size register next_seq registered node_token vllm_api_key
    first mac
welcomed_test = refl

free_test : (blocked (some "h") 6 joined.limiter).1 ≡ false
unfolding worker_source register_handler may_read_spec may_register join_with check_join_token
    is_reusable same_text valid_node unless_revoked bearer partition after_prefix node_from_token
    read_token signed usable is_node_revoked blocked recent limiter drop_before times_of get put
    admit choose closed deny welcome pool_size register next_seq registered node_token vllm_api_key
    first mac
free_test = refl

register-heartbeat_example :
    (y : HeartbeatResponse) × ((worker_source setup
        (request 6 "bearer oumigo-node.w1.msnode:w1")
        (heartbeat_handler P setup first_beat (request 6 "bearer oumigo-node.w1.msnode:w1"))
        joined).1
      ≡ inr y)
    × (y.known ≡ true)
unfolding bearer partition
register-heartbeat_example =
    register-heartbeat P setup (joining "w1") first_beat (request 5 "bearer oumigo-join-a")
      (request 6 "bearer oumigo-node.w1.msnode:w1") manager welcomed welcomed_test w1-IsNamed refl
      refl refl free_test

abbrev fleet : Registry
fleet = run empty ((1, registers (joining "w1")) ∷ (2, registers (joining "bad")) ∷ [])

get-revoke_pass_example :
    get "bad" (revoke_pass store fleet).0.nodes
    ≡ (if is_node_revoked "bad" store then none else get "bad" fleet.nodes)
get-revoke_pass_example =
    get-revoke_pass store fleet "bad"
      (run-empty-IsValid ((1, registers (joining "w1")) ∷ (2, registers (joining "bad")) ∷ []))
