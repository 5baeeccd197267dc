-- ===== src/Manager/Credentials.antt =====
-- The manager's credentials: `AuthStore` of src/oumigo/service/manager/credentials.py.
-- The SQLite tables are lists of rows, newest last; an INSERT that breaks a PRIMARY KEY or a UNIQUE
-- gives `none`, as it raises. Random tokens and ids, and the time, are arguments. SHA-256, HMAC and
-- the text methods of Python are the parameter `Platform`. The lock, the file and its mode are left
-- out: each method is one transaction.
pub mod Authenticator
pub mod Tokens
pub mod Calls
pub mod Uses
pub mod Keys
use Prim.Native.Char.{Char, code}
use Prim.Native.String.{◌∷◌ as ◌∷ₛ◌, [] as []ₛ, ◌++◌ as ◌++ₛ◌}
use oumigo.Prelude.{
  ℕ, zero, suc, ◌+◌, ◌-◌, ◌≡◌, ◌≢◌, String, Bool, true, false, ◌&&◌, ◌||◌, not, Option, none, some,
  List, [], ◌∷◌, ◌++◌, map, if◌then◌else◌, ltb, leb, ◌==◌, ◌==ₛ◌, any, is_some, filter,
}
use oumigo.Prelude.Dict.{Dict, get, put, remove}

-- `hashlib.sha256(...).hexdigest()`, `hmac.new(secret, ...).hexdigest()`, whose result is not empty,
-- `str.lower` and `str.strip`.
pub record Platform : Type 0 where
  pub sha256 : String → String
  pub hmac : String → String → String
  pub hmac-ne : (k m : String) → hmac k m ≢ ""
  pub lower : String → String
  pub strip : String → String

-- `t[len(p):]`, where `t.startswith(p)`.
unfoldable pub after_prefix : String → String → Option String
after_prefix []ₛ t = some t
after_prefix (c ∷ₛ p) []ₛ = none
after_prefix (c ∷ₛ p) (d ∷ₛ t) = if code c == code d then after_prefix p t else none

-- `t.partition(s)` at one character, without the separator.
unfoldable pub partition : ℕ → String → String × String
partition s []ₛ = ("", "")
partition s (c ∷ₛ t) =
    let (before, after) = partition s t in if code c == s then ("", t) else (c ∷ₛ before, after)

abbrev pub join_prefix : String
join_prefix = "oumigo-join-"

abbrev pub node_prefix : String
node_prefix = "oumigo-node."

abbrev pub key_prefix : String
key_prefix = "oumigo-key-"

pub record JoinToken : Type 0 where
  pub id : String
  pub token_hash : String
  pub label : Option String
  pub created_at : ℕ
  pub expires_at : Option ℕ
  pub uses_left : Option ℕ
  pub revoked : Bool

pub record ApiKey : Type 0 where
  pub id : String
  pub key_hash : String
  pub label : Option String
  pub created_at : ℕ
  pub revoked : Bool

pub record AuthStore : Type 0 where
  pub secret : String
  pub join_tokens : List JoinToken
  pub api_keys : List ApiKey
  pub revoked_nodes : Dict ℕ

-- `x if x else None`.
abbrev unless_zero : Option ℕ → Option ℕ
unless_zero none = none
unless_zero (some n) = if n == 0 then none else some n

abbrev pub later : ℕ → Option ℕ → Option ℕ
later now none = none
later now (some n) = some (now + n)

-- `JoinToken.usable`, and the condition of the same name in `check_join_token`, but for the hash.
abbrev expired : ℕ → Option ℕ → Bool
expired now none = false
expired now (some t) = leb t now

abbrev used_up : Option ℕ → Bool
used_up none = false
used_up (some n) = n == 0

unfoldable pub usable : ℕ → JoinToken → Bool
usable now r = not r.revoked && (not (expired now r.expires_at) && not (used_up r.uses_left))

-- `uses_left - 1`.
abbrev pub spend : JoinToken → JoinToken
spend r = record r { uses_left = elim r.uses_left [ none ↦ none | some n ↦ some (n - 1) ] }

-- The SELECT of `check_api_key`: the id of the first row that matches.
pub find_key : String → List ApiKey → Option String
find_key h [] = none
find_key h (r ∷ rs) = if r.key_hash ==ₛ h && not r.revoked then some r.id else find_key h rs

-- `t[:n]`.
unfoldable pub first : ℕ → String → String
first n []ₛ = ""
first zero (c ∷ₛ t) = ""
first (suc n) (c ∷ₛ t) = c ∷ₛ first n t

module _ (P : Platform) where
  -- `bearer`.
  unfoldable pub bearer : Option String → Option String
  bearer none = none
  bearer (some a) =
      let (scheme, value) = partition 32 a in
      if a ==ₛ "" || (not (P.lower scheme ==ₛ "bearer") || P.strip value ==ₛ "")
      then none
      else some (P.strip value)

  -- The random token and id come from `secrets`.
  pub create_join_token :
      String
      → String
      → ℕ
      → Option ℕ
      → Option ℕ
      → Option String
      → AuthStore
      → Option (AuthStore × String × String)
  create_join_token random token_id now ttl uses label s =
      let token = join_prefix ++ₛ random in
      if any (λ r. r.id ==ₛ token_id || r.token_hash ==ₛ P.sha256 token) s.join_tokens
      then none
      else some (
        record s {
          join_tokens =
              s.join_tokens
              ++ record {
                id = token_id;
                token_hash = P.sha256 token;
                label = label;
                created_at = now;
                expires_at = later now (unless_zero ttl);
                uses_left = unless_zero uses;
                revoked = false;
              }
                ∷ [];
        },
        token_id,
        token,
      )

  -- What the UPDATE of `check_join_token` matches, and what its SELECT matches next.
  abbrev pub limited : ℕ → String → JoinToken → Bool
  limited now h r = r.token_hash ==ₛ h && (usable now r && is_some r.uses_left)

  abbrev pub unlimited : ℕ → String → JoinToken → Bool
  unlimited now h r = r.token_hash ==ₛ h && (usable now r && not (is_some r.uses_left))

  unfoldable pub check_join_token : String → Bool → ℕ → AuthStore → AuthStore × Bool
  check_join_token token consume now s =
      let h = P.sha256 token in
      if not (is_some (after_prefix join_prefix token))
      then (s, false)
      else if consume
      then if any (limited now h) s.join_tokens
        then (
          record s {
            join_tokens = map (λ r. if limited now h r then spend r else r) s.join_tokens;
          },
          true,
        )
        else (s, any (unlimited now h) s.join_tokens)
      else (s, any (λ r. r.token_hash ==ₛ h && usable now r) s.join_tokens)

  pub create_api_key :
      String → String → ℕ → Option String → AuthStore → Option (AuthStore × String × String)
  create_api_key random key_id now label s =
      let key = key_prefix ++ₛ random in
      if any (λ r. r.id ==ₛ key_id || r.key_hash ==ₛ P.sha256 key) s.api_keys
      then none
      else some (
        record s {
          api_keys =
              s.api_keys
              ++ record {
                id = key_id;
                key_hash = P.sha256 key;
                label = label;
                created_at = now;
                revoked = false;
              }
                ∷ [];
        },
        key_id,
        key,
      )

  pub check_api_key : Option String → AuthStore → Option String
  check_api_key none s = none
  check_api_key (some key) s =
      if is_some (after_prefix key_prefix key) then find_key (P.sha256 key) s.api_keys else none

  unfoldable pub mac : AuthStore → String → String → String
  mac s purpose node_id = P.hmac s.secret (purpose ++ₛ ":" ++ₛ node_id)

  unfoldable pub vllm_api_key : AuthStore → String → String
  vllm_api_key s node_id = "oumigo-vllm-" ++ₛ first 48 (mac s "vllm" node_id)

  unfoldable pub node_token : AuthStore → String → String
  node_token s node_id = node_prefix ++ₛ (node_id ++ₛ ("." ++ₛ mac s "node" node_id))

  -- The node id of a token without its prefix, if it is signed.
  unfoldable pub signed : AuthStore → String × String → Option String
  signed s (node_id, m) =
      if node_id ==ₛ "" || not (m ==ₛ mac s "node" node_id) then none else some node_id

  unfoldable pub read_token : AuthStore → Option String → Option String
  read_token s none = none
  read_token s (some rest) = signed s (partition 46 rest)

  unfoldable pub node_from_token : AuthStore → String → Option String
  node_from_token s token = read_token s (after_prefix node_prefix token)

pub revoke_join_token : String → AuthStore → AuthStore × Bool
revoke_join_token token_id s = (
  record s {
    join_tokens =
        map (λ r. if r.id ==ₛ token_id then record r { revoked = true } else r) s.join_tokens;
  },
  any (λ r. r.id ==ₛ token_id) s.join_tokens,
)

unfoldable pub revoke_api_key : String → AuthStore → AuthStore × Bool
revoke_api_key key_id s = (
  record s {
    api_keys = map (λ r. if r.id ==ₛ key_id then record r { revoked = true } else r) s.api_keys;
  },
  any (λ r. r.id ==ₛ key_id) s.api_keys,
)

pub revoke_node : String → ℕ → AuthStore → AuthStore
revoke_node node_id now s = record s { revoked_nodes = put node_id now s.revoked_nodes }

pub unrevoke_node : String → AuthStore → AuthStore × Bool
unrevoke_node node_id s = (
  record s { revoked_nodes = remove node_id s.revoked_nodes },
  is_some (get node_id s.revoked_nodes),
)

unfoldable pub is_node_revoked : String → AuthStore → Bool
is_node_revoked node_id s = is_some (get node_id s.revoked_nodes)
