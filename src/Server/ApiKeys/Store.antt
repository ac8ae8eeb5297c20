-- ===== src/Server/ApiKeys/Store.antt =====
-- src/harness/server-api-keys.ts: the policies and the audit log that the handlers write. A policy is read as
-- it was written. Every handler reads the policy, works on what it read, and writes a policy, with
-- nothing that holds off other handlers meanwhile.
use loomctl.Base.{
  ℕ, Bool, ◌||◌, String, Option, none, some, List, [], ◌∷◌, ◌++◌, if◌then◌else◌, map,
}
use loomctl.Base.Directory.{lookup, insert}
use loomctl.Base.Json.{Value}
use loomctl.Server.Access.{
  TenantRole, TenantApiKey, TenantAccess, present, is_some, tenant_api_key_is_active,
}

pub record SanitizedTenantApiKey : Type 0 where
  pub id : Option String
  pub actor : String
  pub role : TenantRole
  pub model_key_env : Option String
  pub created_at : Option (Option ℕ)
  pub not_before : Option (Option ℕ)
  pub expires_at : Option (Option ℕ)
  pub rotated_from_id : Option String
  pub active : Option Bool

unfoldable pub sanitize_tenant_api_key : TenantApiKey → ℕ → SanitizedTenantApiKey
sanitize_tenant_api_key key now = record {
  id = key.id;
  actor = key.actor;
  role = key.role;
  model_key_env = key.model_key_env;
  created_at = key.created_at;
  not_before = key.not_before;
  expires_at = key.expires_at;
  rotated_from_id = key.rotated_from_id;
  active =
      if present key.id
        || is_some key.created_at
        || is_some key.not_before
        || is_some key.expires_at
        || present key.rotated_from_id
      then some (tenant_api_key_is_active key now)
      else none;
}

unfoldable pub sanitize_tenant_api_keys :
    List TenantApiKey → ℕ → Option (List SanitizedTenantApiKey)
sanitize_tenant_api_keys [] now = none
sanitize_tenant_api_keys (key ∷ keys) now =
    some (map (λ k. sanitize_tenant_api_key k now) (key ∷ keys))

-- A policy: its keys, and the settings that these routes leave alone.
pub record TenantPolicy : Type 0 where
  pub api_keys : Option (List TenantApiKey)
  pub settings : List (String × Value)

abbrev pub keys_of : Option TenantPolicy → List TenantApiKey
keys_of none = []
keys_of (some policy) = elim policy.api_keys [ none ↦ [] | some keys ↦ keys ]

unfoldable pub policy_with_keys : Option TenantPolicy → List TenantApiKey → TenantPolicy
policy_with_keys none keys = record { api_keys = some keys; settings = [] }
policy_with_keys (some policy) keys = record { api_keys = some keys; settings = policy.settings }

-- What the handlers tell the audit log; what repeats the fields of these keys is left out.
pub data AuditEvent : Type 0 where
  created :
      (key : SanitizedTenantApiKey) (before after : Option (List SanitizedTenantApiKey))
      → AuditEvent
  rotated : (previous key : SanitizedTenantApiKey) (overlap_seconds : ℕ) → AuditEvent
  revoked : (keys before after : Option (List SanitizedTenantApiKey)) → AuditEvent

pub record AuditEntry : Type 0 where
  pub tenant : String
  pub event : AuditEvent
  pub client_id : Option String
  pub access : Option TenantAccess

pub record KeyState : Type 0 where
  pub policies : List (String × TenantPolicy)
  pub audit : List AuditEntry

-- The readings of the clock: for the keys that are searched, for the new key, for the comparison of
-- the tokens.
pub record Readings : Type 0 where
  pub searched_at : ℕ
  pub now : ℕ
  pub compared_at : ℕ

unfoldable pub read_policy : KeyState → String → Option TenantPolicy
read_policy state tenant = lookup tenant state.policies

unfoldable pub keys_in : KeyState → String → List TenantApiKey
unfolding read_policy
keys_in state tenant = keys_of (read_policy state tenant)

unfoldable pub write_policy : String → TenantPolicy → AuditEntry → KeyState → KeyState
write_policy tenant policy entry state = record {
  policies = insert tenant policy state.policies;
  audit = state.audit ++ entry ∷ [];
}
