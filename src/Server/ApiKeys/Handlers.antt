-- ===== src/Server/ApiKeys/Handlers.antt =====
-- src/harness/server-api-keys.ts: the three handlers, from the path of the request to the audit log.
use loomctl.Base.{
  ℕ, Bool, true, false, not, ◌&&◌, ◌||◌, String, Option, none, some, List, [], ◌∷◌, ◌==◌, leb, eqb,
  if◌then◌else◌, Result, ok, check, ◌>>=◌, ◌>>◌, invalid,
}
use loomctl.Base.Json.{Value, Fields}
use loomctl.Base.Texts.{split, nonempty, any_code}
use loomctl.Server.Access.{
  admin, TenantAccess, AuthOptions, Credentials, configured_keys, require_tenant_access,
}
use loomctl.Server.ApiKeys.Fields.{Platform, Generated, member, request_object, optional_client_id}
use loomctl.Server.ApiKeys.Store.{
  sanitize_tenant_api_key, sanitize_tenant_api_keys, TenantPolicy, keys_of, created, rotated,
  revoked, KeyState, Readings, read_policy, keys_in, write_policy,
}
use loomctl.Server.ApiKeys.Plans.{
  selector_of, Created, plan_create, Rotated, plan_rotate, Revoked, plan_revoke,
}

-- A request to one of the three routes, with what the server makes up for it and reads from its clock.
pub record KeyRequest : Type 0 where
  pub pathname : String
  pub credentials : Credentials
  pub body : Value
  pub made : Generated
  pub at : Readings

pub data Route : Type 0 where
  create rotate revoke : Route

abbrev route_path : Route → List String
route_path create = []
route_path rotate = "rotate" ∷ []
route_path revoke = "revoke" ∷ []

abbrev same_texts : List String → List String → Bool
same_texts [] [] = true
same_texts (a ∷ more) (b ∷ others) = a == b && same_texts more others
same_texts _ _ = false

-- The tenant of `/tenants/<tenant>/policy/api-keys` and what may follow.
unfoldable pub tenant_segment : Route → List String → Option String
tenant_segment route (first ∷ (tenant ∷ (third ∷ (fourth ∷ rest)))) =
    if first == "tenants"
      && third == "policy"
      && fourth == "api-keys"
      && same_texts rest (route_path route)
    then some tenant
    else none
tenant_segment route _ = none

abbrev is_safe_char : ℕ → Bool
is_safe_char c =
    (leb b'A' c && leb c b'Z')
    || (leb b'a' c && leb c b'z')
    || (leb b'0' c && leb c b'9')
    || eqb c b'.'
    || eqb c b'_'
    || eqb c b'-'

-- `requireSafeName(value, "tenant")`; an empty segment does not get here.
unfoldable pub require_safe_name : String → Result String
require_safe_name name = do
  check (not (any_code (λ c. not (is_safe_char c)) name) && not (name == ".") && not (name == ".."))
      invalid
  ok name

-- The head of the three handlers: the tenant, the admin, the body and its client id.
pub record Opened : Type 0 where
  pub tenant : String
  pub access : Option TenantAccess
  pub body : Fields
  pub client_id : Option String

-- The last steps of the handlers: the policy is written, and the audit log has an entry.
unfoldable pub commit_create :
    Opened → Option TenantPolicy → Created → Readings → KeyState → KeyState
commit_create opened existing plan at state =
    write_policy opened.tenant plan.policy
      (record {
        tenant = opened.tenant;
        event =
            created (sanitize_tenant_api_key plan.key at.compared_at)
              (sanitize_tenant_api_keys (keys_of existing) at.compared_at)
              (sanitize_tenant_api_keys (keys_of (some plan.policy)) at.compared_at);
        client_id = opened.client_id;
        access = opened.access;
      })
      state

unfoldable pub commit_rotate : Opened → Rotated → Readings → KeyState → KeyState
commit_rotate opened plan at state =
    write_policy opened.tenant plan.policy
      (record {
        tenant = opened.tenant;
        event =
            rotated (sanitize_tenant_api_key plan.previous at.compared_at)
              (sanitize_tenant_api_key plan.key at.compared_at) plan.overlap_seconds;
        client_id = opened.client_id;
        access = opened.access;
      })
      state

unfoldable pub commit_revoke :
    Opened → Option TenantPolicy → Revoked → Readings → KeyState → KeyState
commit_revoke opened existing plan at state =
    write_policy opened.tenant plan.policy
      (record {
        tenant = opened.tenant;
        event =
            revoked (sanitize_tenant_api_keys plan.keys at.compared_at)
              (sanitize_tenant_api_keys (keys_of existing) at.compared_at)
              (sanitize_tenant_api_keys (keys_of (some plan.policy)) at.compared_at);
        client_id = opened.client_id;
        access = opened.access;
      })
      state

-- The segments of the path that are not empty.
unfoldable pub route_tenant : Route → KeyRequest → Option String
unfolding tenant_segment
route_tenant route req = tenant_segment route (nonempty (split (λ c. eqb c b'/') req.pathname))

module _ (platform : Platform) (options : AuthOptions) where
  unfoldable pub open_request : KeyRequest → String → KeyState → Result Opened
  unfolding keys_in
  open_request req segment state = do
    tenant ← require_safe_name segment
    access ←
        require_tenant_access platform.digest options (keys_in state tenant) req.credentials tenant
          admin req.at.searched_at
    body ← request_object req.body
    client_id ← optional_client_id (member "clientId" body)
    ok (record { tenant = tenant; access = access; body = body; client_id = client_id })

  unfoldable pub create_in :
      Option String → KeyRequest → KeyState → Result (Option Created × KeyState)
  create_in none req state = ok (none, state)
  create_in (some segment) req state = do
    opened ← open_request req segment state
    plan ←
        plan_create platform (configured_keys options opened.tenant) opened.body req.made req.at
          (read_policy state opened.tenant)
    ok (some plan, commit_create opened (read_policy state opened.tenant) plan req.at state)

  -- `none` is the answer `false`: the path is not the one of this route.
  unfoldable pub handle_create : KeyRequest → KeyState → Result (Option Created × KeyState)
  handle_create req state = create_in (route_tenant create req) req state

  unfoldable pub rotate_in :
      Option String → KeyRequest → KeyState → Result (Option Rotated × KeyState)
  rotate_in none req state = ok (none, state)
  rotate_in (some segment) req state = do
    opened ← open_request req segment state
    plan ←
        plan_rotate platform (configured_keys options opened.tenant) opened.body req.made req.at
          (read_policy state opened.tenant)
    ok (some plan, commit_rotate opened plan req.at state)

  -- `none` is the answer `false`: the path is not the one of this route.
  unfoldable pub handle_rotate : KeyRequest → KeyState → Result (Option Rotated × KeyState)
  handle_rotate req state = rotate_in (route_tenant rotate req) req state

  unfoldable pub revoke_in :
      Option String → KeyRequest → KeyState → Result (Option Revoked × KeyState)
  revoke_in none req state = ok (none, state)
  revoke_in (some segment) req state = do
    opened ← open_request req segment state
    selector ← selector_of opened.body
    let plan = plan_revoke selector (read_policy state opened.tenant)
    ok (some plan, commit_revoke opened (read_policy state opened.tenant) plan req.at state)

  -- `none` is the answer `false`: the path is not the one of this route.
  unfoldable pub handle_revoke : KeyRequest → KeyState → Result (Option Revoked × KeyState)
  handle_revoke req state = revoke_in (route_tenant revoke req) req state
