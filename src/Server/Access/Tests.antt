-- ===== src/Server/Access/Tests.antt =====
-- src/harness/server/tenants.ts: runs of the access check.
use loomctl.Base.{◌≡◌, refl, true, String, none, some, [], ◌∷◌, ok, err, forbidden, unauthorized}
use loomctl.Base.Directory.{lookup}
use loomctl.Server.Access.{
  TenantApiKey, Credentials, AuthOptions, admin, developer, safe_equal_string,
  tenant_api_key_is_active, tenant_role_rank, require_tenant_role, header_value, bearer_token,
  header_credential, stream_query_token, provided_credential, configured_keys, has_global_auth,
  hash_tenant_api_token, tenant_api_key_matches, key_test, by_key, by_token, by_oidc, oidc_test,
  last_test, require_tenant_access,
}
use loomctl.Server.Access.Grounds.{Entitled, access_justified}

abbrev options : AuthOptions
options = record { tenant_tokens = ("acme", "hunter2") ∷ []; tenant_api_keys = []; oidc = none }

-- A key that lives from 10 to 90.
abbrev key : TenantApiKey
key = record {
  id = some "k1";
  token = none;
  token_hash = some "sha256:ann";
  actor = "ann";
  role = developer;
  model_key_env = none;
  created_at = none;
  not_before = some (some 10);
  expires_at = some (some 90);
  rotated_from_id = none;
}

abbrev with_header : String → Credentials
with_header value = record {
  authorization = [];
  tenant_token = value ∷ [];
  is_stream = true;
  query_token = some "hunter2";
}

by_her_key :
    require_tenant_access (λ s. s) options (key ∷ []) (with_header "ann") "acme" developer 10
    ≡ ok (some (record { actor = "ann"; role = developer; model_key_env = none }))
unfolding require_tenant_access by_key key_test configured_keys has_global_auth
    tenant_api_key_matches safe_equal_string tenant_api_key_is_active hash_tenant_api_token
    provided_credential header_credential bearer_token header_value stream_query_token
    require_tenant_role tenant_role_rank lookup
by_her_key = refl

too_weak :
    require_tenant_access (λ s. s) options (key ∷ []) (with_header "ann") "acme" admin 10
    ≡ err forbidden
unfolding require_tenant_access by_key key_test configured_keys has_global_auth
    tenant_api_key_matches safe_equal_string tenant_api_key_is_active hash_tenant_api_token
    provided_credential header_credential bearer_token header_value stream_query_token
    require_tenant_role tenant_role_rank lookup
too_weak = refl

-- The end is exclusive, and the header hides the token of the query.
too_late :
    require_tenant_access (λ s. s) options (key ∷ []) (with_header "ann") "acme" developer 90
    ≡ err unauthorized
unfolding require_tenant_access by_key key_test by_token by_oidc oidc_test last_test configured_keys
    has_global_auth tenant_api_key_matches safe_equal_string tenant_api_key_is_active
    hash_tenant_api_token provided_credential header_credential bearer_token header_value
    stream_query_token lookup
too_late = refl

access_justified_example :
    Entitled
      (λ s. s)
      options
      (key ∷ [])
      (with_header "ann")
      "acme"
      developer
      10
      (some (record { actor = "ann"; role = developer; model_key_env = none }))
access_justified_example =
    access_justified (λ s. s) options (key ∷ []) (with_header "ann") "acme" developer 10
      (some (record { actor = "ann"; role = developer; model_key_env = none })) by_her_key
