-- ===== src/Manager/Credentials/Calls.antt =====
-- The calls that the manager and its command line make of an `AuthStore`, one transaction each.
use oumigo.Prelude.{ℕ, String, Bool, Option, none, some, List, [], ◌∷◌}
use oumigo.Manager.Credentials.{
  Platform, AuthStore, create_join_token, check_join_token, revoke_join_token, create_api_key,
  revoke_api_key, revoke_node, unrevoke_node,
}

pub data AuthCall : Type 0 where
  mints : String → String → ℕ → Option ℕ → Option ℕ → Option String → AuthCall
  checks : String → Bool → ℕ → AuthCall
  revokes_token : String → AuthCall
  issues_key : String → String → ℕ → Option String → AuthCall
  revokes_key : String → AuthCall
  revokes_node : String → ℕ → AuthCall
  restores_node : String → AuthCall

-- The store after a creation that may fail.
abbrev pub created : AuthStore → Option (AuthStore × String × String) → AuthStore
created s none = s
created s (some (t, id, secret)) = t

module _ (P : Platform) where
  abbrev pub auth_step : AuthStore → AuthCall → AuthStore
  auth_step s (mints random id now ttl uses label) =
      created s (create_join_token P random id now ttl uses label s)
  auth_step s (checks token consume now) = (check_join_token P token consume now s).0
  auth_step s (revokes_token id) = (revoke_join_token id s).0
  auth_step s (issues_key random id now label) = created s (create_api_key P random id now label s)
  auth_step s (revokes_key id) = (revoke_api_key id s).0
  auth_step s (revokes_node n now) = revoke_node n now s
  auth_step s (restores_node n) = (unrevoke_node n s).0

  unfoldable pub auth_run : AuthStore → List AuthCall → AuthStore
  auth_run s [] = s
  auth_run s (c ∷ cs) = auth_run (auth_step s c) cs
