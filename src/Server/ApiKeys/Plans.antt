-- ===== src/Server/ApiKeys/Plans.antt =====
-- src/harness/server-api-keys.ts: what the handlers compute between the reading of a policy and the
-- writing of it.
use loomctl.Base.{
  ℕ, ◌+◌, ◌*◌, min, Bool, true, false, not, ◌&&◌, ◌||◌, String, Option, none, some, List, [], ◌∷◌,
  ◌++◌, ◌==◌, if◌then◌else◌, Result, ok, err, check, ◌>>=◌, ◌>>◌, invalid, conflict, not_found,
  keep, any,
}
use loomctl.Base.Json.{Value, undefined, text, Fields}
use loomctl.Server.Access.{
  TenantRole, admin, developer, viewer, TenantApiKey, present, tenant_api_key_is_active,
  tenant_api_key_matches,
}
use loomctl.Server.ApiKeys.Fields.{
  Platform, Generated, member, api_key_id, api_key_actor, api_key_role, optional,
  api_key_overlap_seconds, api_key_from_create_body,
}
use loomctl.Server.ApiKeys.Fields.{ApiKeyCreateBody}
use loomctl.Server.ApiKeys.Store.{TenantPolicy, keys_of, policy_with_keys, Readings}

-- What a request for a rotation or a revocation names: a key, or an actor with or without a role.
pub record Selector : Type 0 where
  pub key_id : Option String
  pub actor : Option String
  pub role : Option TenantRole

abbrev pub same_role : TenantRole → TenantRole → Bool
same_role admin admin = true
same_role developer developer = true
same_role viewer viewer = true
same_role _ _ = false

-- `role === undefined || key.role === role`
abbrev pub role_fits : Option TenantRole → TenantRole → Bool
role_fits none role = true
role_fits (some wanted) role = same_role role wanted

abbrev pub same_text : Option String → Option String → Bool
same_text none none = true
same_text (some a) (some b) = a == b
same_text _ _ = false

unfoldable pub selects : Selector → TenantApiKey → Bool
selects selector key =
    if present selector.key_id
    then same_text key.id selector.key_id
    else same_text (some key.actor) selector.actor && role_fits selector.role key.role

unfoldable pub selector_of : Fields → Result Selector
selector_of body = do
  key_id ← optional api_key_id (member "keyId" body)
  actor ← optional api_key_actor (member "actor" body)
  check (present key_id || present actor) invalid
  role ← optional api_key_role (member "role" body)
  ok (record { key_id = key_id; actor = actor; role = role })

-- The body of a request to create a key.
unfoldable pub create_body : Fields → ApiKeyCreateBody
create_body body = record {
  actor = member "actor" body;
  role = member "role" body;
  model_key_env = member "modelKeyEnv" body;
  token = member "token" body;
  expires_at = member "expiresAt" body;
}

pub record Created : Type 0 where
  pub key : TenantApiKey
  pub token : String
  pub policy : TenantPolicy

module _ (platform : Platform) (configured : List TenantApiKey) where
  unfoldable pub token_exists : List TenantApiKey → String → ℕ → Bool
  token_exists keys token now =
      any (λ key. tenant_api_key_matches platform.digest key (some token) now) (configured ++ keys)

  unfoldable pub plan_create : Fields → Generated → Readings → Option TenantPolicy → Result Created
  plan_create body made at existing = do
    (key, token) ← api_key_from_create_body platform (create_body body) at.now none made
    check (not (token_exists (keys_of existing) token at.compared_at)) invalid
    ok (record {
      key = key;
      token = token;
      policy = policy_with_keys existing (keys_of existing ++ key ∷ []);
    })

abbrev pub is_candidate : Selector → ℕ → TenantApiKey → Bool
is_candidate selector now key = tenant_api_key_is_active key now && selects selector key

-- The earlier of two ends; a key without an end has the other one.
abbrev pub earlier : ℕ → Option (Option ℕ) → ℕ
earlier overlap none = overlap
earlier overlap (some none) = overlap
earlier overlap (some (some ms)) = min overlap ms

abbrev pub id_or : Option String → String → String
id_or none generated = generated
id_or (some id) generated = id

abbrev pub expiring_key : TenantApiKey → String → ℕ → TenantApiKey
expiring_key current id overlap_end = record current {
  id = some id;
  expires_at = some (some (earlier overlap_end current.expires_at));
}

pub record Rotated : Type 0 where
  pub current : TenantApiKey
  pub previous : TenantApiKey
  pub key : TenantApiKey
  pub token : String
  pub overlap_seconds : ℕ
  pub policy : TenantPolicy

-- The active keys that a selector finds must be one.
unfoldable pub the_candidate : List TenantApiKey → Result TenantApiKey
the_candidate [] = err not_found
the_candidate (key ∷ []) = ok key
the_candidate (key ∷ (other ∷ keys)) = err conflict

abbrev pub role_text : TenantRole → String
role_text admin = "admin"
role_text developer = "developer"
role_text viewer = "viewer"

abbrev optional_text : Option String → Value
optional_text none = undefined
optional_text (some s) = text s

-- The body that a rotation makes up for the new key.
unfoldable pub rotate_body : Fields → TenantApiKey → ApiKeyCreateBody
rotate_body body current = record {
  actor = text current.actor;
  role = text (role_text current.role);
  model_key_env = optional_text current.model_key_env;
  token = member "token" body;
  expires_at = member "expiresAt" body;
}

-- The one candidate is replaced where it stands.
abbrev pub replace_candidate :
    (TenantApiKey → Bool) → TenantApiKey → List TenantApiKey → List TenantApiKey
replace_candidate p replacement [] = []
replace_candidate p replacement (key ∷ keys) =
    (if p key then replacement else key) ∷ replace_candidate p replacement keys

module _ (platform : Platform) (configured : List TenantApiKey) where
  unfoldable pub plan_rotate : Fields → Generated → Readings → Option TenantPolicy → Result Rotated
  plan_rotate body made at existing = do
    selector ← selector_of body
    overlap ← api_key_overlap_seconds platform.number_of (member "overlapSeconds" body)
    let candidate = is_candidate selector at.searched_at
    current ← the_candidate (keep candidate (keys_of existing))
    let current_id = id_or current.id made.previous_id
    let previous = expiring_key current current_id (at.now + overlap * 1000)
    (key, token) ←
        api_key_from_create_body platform (rotate_body body current) at.now (some current_id) made
    check (not (token_exists platform configured (keys_of existing) token at.compared_at)) invalid
    ok (record {
      current = current;
      previous = previous;
      key = key;
      token = token;
      overlap_seconds = overlap;
      policy =
          policy_with_keys existing
            (replace_candidate candidate previous (keys_of existing) ++ key ∷ []);
    })

pub record Revoked : Type 0 where
  pub keys : List TenantApiKey
  pub policy : TenantPolicy

unfoldable pub plan_revoke : Selector → Option TenantPolicy → Revoked
plan_revoke selector existing = record {
  keys = keep (selects selector) (keys_of existing);
  policy = policy_with_keys existing (keep (λ key. not (selects selector key)) (keys_of existing));
}
