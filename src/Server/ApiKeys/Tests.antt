-- ===== src/Server/ApiKeys/Tests.antt =====
-- src/harness/server-api-keys.ts: runs of the handlers.
use loomctl.Base.{
  ℕ, ◌≡◌, refl, false, String, Option, none, some, List, [], ◌∷◌, ◌++◌, ◌==◌, ok, err, arith,
  unauthorized, Bool-cases, inl, inr,
}
use loomctl.Base.Directory.{lookup, insert}
use loomctl.Base.Json.{Value, number, text, object, field, end}
use loomctl.Base.Texts.{trim, is_blank, units, any_code}
use loomctl.Server.Access.{
  TenantApiKey, TenantAccess, Credentials, AuthOptions, admin, developer, viewer, safe_equal_string,
  tenant_api_key_is_active, tenant_role_rank, require_tenant_role, header_value, bearer_token,
  header_credential, stream_query_token, provided_credential, configured_keys, has_global_auth,
  hash_tenant_api_token, tenant_api_key_matches, key_test, by_key, require_tenant_access,
}
use loomctl.Server.ApiKeys.Fields.{
  Platform, member, request_object, required_string, single_line, api_key_actor, api_key_role,
  api_key_id, environment_name, optional_client_id, optional, api_key_overlap_seconds, chosen_token,
  new_api_key, api_key_from_create_body,
}
use loomctl.Server.ApiKeys.Store.{policy_with_keys, KeyState, read_policy, keys_in, write_policy}
use loomctl.Server.ApiKeys.Plans.{
  Selector, selects, selector_of, create_body, rotate_body, token_exists, Created, plan_create,
  the_candidate, Rotated, plan_rotate, Revoked, plan_revoke,
}
use loomctl.Server.ApiKeys.Handlers.{
  KeyRequest, require_safe_name, Opened, open_request, commit_create, commit_revoke, create_in,
  revoke_in, commit_rotate, rotate_in,
}
use loomctl.Server.ApiKeys.Secrets.{OnlyDigests, creates, revokes, serve_key_calls, only_digests}
use loomctl.Server.ApiKeys.Revoked.{revoked_refused, revoke_last_opens, create_restores}
use loomctl.Server.ApiKeys.Replaced.{IsNamed}
use loomctl.Server.ApiKeys.Rotation.{HandsOver, created_key_admits, rotation-HandsOver}

abbrev whole_number : Value → Option ℕ
whole_number (number n) = some n
whole_number _ = none

abbrev platform : Platform
platform = record { digest = λ s. s; parse_date = λ _. some 9000; number_of = whole_number }

abbrev options : AuthOptions
options = record { tenant_tokens = []; tenant_api_keys = []; oidc = none }

abbrev key_of_ann : TenantApiKey
key_of_ann = record {
  id = some "k1";
  token = none;
  token_hash = some "sha256:ann";
  actor = "ann";
  role = admin;
  model_key_env = none;
  created_at = some (some 10);
  not_before = none;
  expires_at = none;
  rotated_from_id = none;
}

abbrev key_of_bob : TenantApiKey
key_of_bob = record key_of_ann {
  id = some "k2";
  token_hash = some "sha256:bob";
  actor = "bob";
  role = viewer;
}

abbrev state_of : List TenantApiKey → KeyState
state_of keys = record {
  policies = ("acme", record { api_keys = some keys; settings = [] }) ∷ [];
  audit = [];
}

abbrev bearer : String → Credentials
bearer header = record {
  authorization = header ∷ [];
  tenant_token = [];
  is_stream = false;
  query_token = none;
}

abbrev request : String → Value → KeyRequest
request path body = record {
  pathname = path;
  credentials = bearer "Bearer ann";
  body = body;
  made = record { token = "loom_made_by_the_server"; key_id = "k3"; previous_id = "k4" };
  at = record { searched_at = 100; now = 101; compared_at = 102 };
}

abbrev ann : Option TenantAccess
ann = some (record { actor = "ann"; role = admin; model_key_env = none })

abbrev opened_with : Value → Opened
opened_with body = record {
  tenant = "acme";
  access = ann;
  body = elim body [ object fields ↦ fields | _ ↦ end ];
  client_id = none;
}

-- A revocation by id.
abbrev revoking : String → Value
revoking id = object (field "keyId" (text id) end)

abbrev revoke_request : String → KeyRequest
revoke_request id = request "/tenants/acme/policy/api-keys/revoke" (revoking id)

abbrev selecting : String → Selector
selecting id = record { key_id = some id; actor = none; role = none }

opens_revoke :
    open_request platform options
      (revoke_request "k2")
      "acme"
      (state_of (key_of_ann ∷ key_of_bob ∷ []))
    ≡ ok (opened_with (revoking "k2"))
unfolding open_request require_safe_name any_code keys_in read_policy lookup require_tenant_access
    by_key key_test configured_keys has_global_auth tenant_api_key_matches safe_equal_string
    tenant_api_key_is_active hash_tenant_api_token provided_credential header_credential
    bearer_token header_value stream_query_token require_tenant_role tenant_role_rank request_object
    optional_client_id member
opens_revoke = refl

opens_last :
    open_request platform options (revoke_request "k1") "acme" (state_of (key_of_ann ∷ []))
    ≡ ok (opened_with (revoking "k1"))
unfolding open_request require_safe_name any_code keys_in read_policy lookup require_tenant_access
    by_key key_test configured_keys has_global_auth tenant_api_key_matches safe_equal_string
    tenant_api_key_is_active hash_tenant_api_token provided_credential header_credential
    bearer_token header_value stream_query_token require_tenant_role tenant_role_rank request_object
    optional_client_id member
opens_last = refl

selects_by_id :
    (id : String)
    → api_key_id (text id) ≡ ok id
    → (id == "") ≡ false
    → selector_of (opened_with (revoking id)).body ≡ ok (selecting id)
unfolding selector_of member optional api_key_actor single_line
selects_by_id id h e = rw (h, e)

selects_k1 : selector_of (opened_with (revoking "k1")).body ≡ ok (selecting "k1")
unfolding api_key_id required_string is_blank trim units any_code
selects_k1 = selects_by_id "k1" refl refl

selects_k2 : selector_of (opened_with (revoking "k2")).body ≡ ok (selecting "k2")
unfolding api_key_id required_string is_blank trim units any_code
selects_k2 = selects_by_id "k2" refl refl

-- What a revocation answers and leaves.
abbrev outcome : KeyState → String → Revoked × KeyState
outcome state id =
    let plan = plan_revoke (selecting id) (read_policy state "acme") in
    (
      plan,
      commit_revoke (opened_with (revoking id)) (read_policy state "acme") plan
          (revoke_request id).at state,
    )

revokes_with :
    (id : String) (state : KeyState)
    → open_request platform options (revoke_request id) "acme" state
      ≡ ok (opened_with (revoking id))
    → selector_of (opened_with (revoking id)).body ≡ ok (selecting id)
    → revoke_in platform options (some "acme") (revoke_request id) state
      ≡ ok (some (outcome state id).0, (outcome state id).1)
unfolding revoke_in
revokes_with id state o s = rw (o, s)

revoked_refused_example :
    require_tenant_access platform.digest options
      (keys_in (outcome (state_of (key_of_ann ∷ key_of_bob ∷ [])) "k2").1 "acme")
      (bearer "Bearer bob")
      "acme"
      viewer
      500
    ≡ err unauthorized
unfolding selects keys_in read_policy lookup tenant_api_key_matches safe_equal_string
    tenant_api_key_is_active hash_tenant_api_token provided_credential header_credential
    bearer_token header_value stream_query_token configured_keys has_global_auth commit_revoke
    write_policy insert plan_revoke policy_with_keys
revoked_refused_example =
    revoked_refused platform options "acme" (revoke_request "k2")
      (state_of (key_of_ann ∷ key_of_bob ∷ []))
      (outcome (state_of (key_of_ann ∷ key_of_bob ∷ [])) "k2").1 (opened_with (revoking "k2"))
      (selecting "k2") (outcome (state_of (key_of_ann ∷ key_of_bob ∷ [])) "k2").0
      (bearer "Bearer bob") viewer 500 opens_revoke selects_k2
      (revokes_with "k2" (state_of (key_of_ann ∷ key_of_bob ∷ [])) opens_revoke selects_k2) refl
      refl refl (λ h. absurd (cc h), (λ h. refl, tt)) refl

-- Without any credential, where an admin is asked for.
revoke_last_opens_example :
    require_tenant_access platform.digest options
      (keys_in (outcome (state_of (key_of_ann ∷ [])) "k1").1 "acme")
      (bearer "")
      "acme"
      admin
      500
    ≡ ok none
unfolding selects keys_in read_policy lookup has_global_auth
revoke_last_opens_example =
    revoke_last_opens platform options "acme" (revoke_request "k1") (state_of (key_of_ann ∷ []))
      (outcome (state_of (key_of_ann ∷ [])) "k1").1 (opened_with (revoking "k1")) (selecting "k1")
      (outcome (state_of (key_of_ann ∷ [])) "k1").0 (bearer "") admin 500 opens_last selects_k1
      (revokes_with "k1" (state_of (key_of_ann ∷ [])) opens_last selects_k1) refl (refl, tt)

-- A new key for a developer, with a token that the server makes up.
abbrev creating : Value
creating = object (field "actor" (text " cal ") (field "role" (text "developer") end))

abbrev create_request : KeyRequest
create_request = request "/tenants/acme/policy/api-keys" creating

abbrev key_of_cal : TenantApiKey
key_of_cal = record {
  id = some "k3";
  token = none;
  token_hash = some "sha256:loom_made_by_the_server";
  actor = "cal";
  role = developer;
  model_key_env = none;
  created_at = some (some 101);
  not_before = none;
  expires_at = none;
  rotated_from_id = none;
}

abbrev created_plan : Created
created_plan = record {
  key = key_of_cal;
  token = "loom_made_by_the_server";
  policy = record { api_keys = some (key_of_ann ∷ key_of_cal ∷ []); settings = [] };
}

plans_create :
    plan_create platform
      (configured_keys options "acme")
      (opened_with creating).body
      create_request.made
      create_request.at
      (read_policy (state_of (key_of_ann ∷ [])) "acme")
    ≡ ok created_plan
unfolding plan_create create_body member api_key_from_create_body chosen_token optional
    api_key_actor api_key_role single_line required_string is_blank trim units any_code new_api_key
    hash_tenant_api_token token_exists tenant_api_key_matches safe_equal_string
    tenant_api_key_is_active configured_keys read_policy lookup policy_with_keys
plans_create = refl

opens_create :
    open_request platform options create_request "acme" (state_of (key_of_ann ∷ []))
    ≡ ok (opened_with creating)
unfolding open_request require_safe_name any_code keys_in read_policy lookup require_tenant_access
    by_key key_test configured_keys has_global_auth tenant_api_key_matches safe_equal_string
    tenant_api_key_is_active hash_tenant_api_token provided_credential header_credential
    bearer_token header_value stream_query_token require_tenant_role tenant_role_rank request_object
    optional_client_id member
opens_create = refl

abbrev state_created : KeyState
state_created =
    commit_create (opened_with creating) (read_policy (state_of (key_of_ann ∷ [])) "acme")
      created_plan create_request.at (state_of (key_of_ann ∷ []))

creates_key :
    create_in platform options (some "acme") create_request (state_of (key_of_ann ∷ []))
    ≡ ok (some created_plan, state_created)
unfolding create_in
creates_key = rw (opens_create, plans_create)

created_key_admits_example :
    require_tenant_access platform.digest options
      (keys_in state_created "acme")
      (bearer "bearer  loom_made_by_the_server")
      "acme"
      viewer
      5000
    ≡ require_tenant_role (record { actor = "cal"; role = developer; model_key_env = none }) viewer
unfolding provided_credential header_credential bearer_token header_value stream_query_token
    configured_keys keys_in read_policy lookup
created_key_admits_example =
    created_key_admits platform options "acme" create_request (state_of (key_of_ann ∷ []))
      state_created (opened_with creating) created_plan (bearer "bearer  loom_made_by_the_server")
      viewer 5000 refl opens_create creates_key refl (refl, tt) (omega arith) refl

-- A revocation of the key of ann meanwhile is undone.
create_restores_example :
    keys_in
      (commit_create
        (opened_with creating)
        (read_policy (state_of (key_of_ann ∷ [])) "acme")
        created_plan
        create_request.at
        (outcome (state_of (key_of_ann ∷ [])) "k1").1)
      "acme"
    ≡ keys_in (state_of (key_of_ann ∷ [])) "acme" ++ key_of_cal ∷ []
create_restores_example =
    create_restores platform options create_request (opened_with creating) created_plan
      (state_of (key_of_ann ∷ [])) (outcome (state_of (key_of_ann ∷ [])) "k1").1 plans_create

before-OnlyDigests : OnlyDigests platform.digest (state_of (key_of_ann ∷ []))
unfolding keys_in read_policy lookup
before-OnlyDigests tenant = elim (Bool-cases ("acme" == tenant)) [
  | inl same ↦ rw same ((refl, inr ("ann", refl)), tt)
  | inr other ↦ rw other tt
]

only_digests_example : OnlyDigests platform.digest (
    serve_key_calls platform options
      (creates create_request ∷ revokes (revoke_request "k1") ∷ [])
      (state_of (key_of_ann ∷ [])))
only_digests_example =
    only_digests platform options (creates create_request ∷ revokes (revoke_request "k1") ∷ [])
      (state_of (key_of_ann ∷ [])) before-OnlyDigests

-- The key of ann gives way to a new one within a minute.
abbrev rotating : Value
rotating = object (field "actor" (text "ann") (field "overlapSeconds" (number 60) end))

abbrev rotated_plan : Rotated
rotated_plan = record {
  current = key_of_ann;
  previous = record key_of_ann { expires_at = some (some 60101) };
  key = record key_of_ann {
    id = some "k3";
    token_hash = some "sha256:loom_made_by_the_server";
    created_at = some (some 101);
    rotated_from_id = some "k1";
  };
  token = "loom_made_by_the_server";
  overlap_seconds = 60;
  policy = record {
    api_keys = some (
        record key_of_ann { expires_at = some (some 60101) }
        ∷ record key_of_ann {
          id = some "k3";
          token_hash = some "sha256:loom_made_by_the_server";
          created_at = some (some 101);
          rotated_from_id = some "k1";
        }
        ∷ []);
    settings = [];
  };
}

plans_rotate :
    plan_rotate platform []
      (opened_with rotating).body
      create_request.made
      create_request.at
      (read_policy (state_of (key_of_ann ∷ [])) "acme")
    ≡ ok rotated_plan
unfolding plan_rotate selector_of selects rotate_body the_candidate api_key_overlap_seconds
    api_key_id member api_key_from_create_body chosen_token optional api_key_actor api_key_role
    single_line required_string is_blank trim units any_code new_api_key hash_tenant_api_token
    token_exists tenant_api_key_matches safe_equal_string tenant_api_key_is_active read_policy
    lookup policy_with_keys environment_name
plans_rotate = refl

abbrev rotate_request : KeyRequest
rotate_request = record create_request { body = rotating }

opens_rotate :
    open_request platform options rotate_request "acme" (state_of (key_of_ann ∷ []))
    ≡ ok (opened_with rotating)
unfolding open_request require_safe_name any_code keys_in read_policy lookup require_tenant_access
    by_key key_test configured_keys has_global_auth tenant_api_key_matches safe_equal_string
    tenant_api_key_is_active hash_tenant_api_token provided_credential header_credential
    bearer_token header_value stream_query_token require_tenant_role tenant_role_rank request_object
    optional_client_id member
opens_rotate = refl

abbrev state_rotated : KeyState
state_rotated =
    commit_rotate (opened_with rotating) rotated_plan create_request.at (state_of (key_of_ann ∷ []))

rotates_key :
    rotate_in platform options (some "acme") rotate_request (state_of (key_of_ann ∷ []))
    ≡ ok (some rotated_plan, state_rotated)
unfolding rotate_in configured_keys lookup
rotates_key = rw (opens_rotate, plans_rotate)

rotation-HandsOver_example :
    HandsOver platform.digest
      (keys_in (state_of (key_of_ann ∷ [])) "acme")
      (keys_in state_rotated "acme")
      key_of_ann
      rotated_plan.previous
      rotated_plan.key
      "loom_made_by_the_server"
      60101
    × ((selector : Selector) × (selector_of (opened_with rotating).body ≡ ok selector)
        × IsNamed selector key_of_ann)
rotation-HandsOver_example =
    rotation-HandsOver platform options "acme" rotate_request (state_of (key_of_ann ∷ []))
      state_rotated (opened_with rotating) rotated_plan refl opens_rotate rotates_key
