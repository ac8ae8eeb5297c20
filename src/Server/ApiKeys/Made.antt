-- ===== src/Server/ApiKeys/Made.antt =====
-- src/harness/server-api-keys.ts: what a request that succeeded has made and written.
use loomctl.Base.{
  ℕ, ◌≡◌, refl, ap, ◌∙◌, subst, inl, inr, Bool, true, false, not, String, Option, none, some, List,
  [], ◌∷◌, ◌++◌, ◌==◌, if◌then◌else◌, Bool-cases, ok, check, check-eq-ok, >>=-eq-ok, >>-eq-ok,
  invalid, ok-injective, keep,
}
use loomctl.Base.Directory.{lookup-insert}
use loomctl.Server.Access.{TenantApiKey, hash_tenant_api_token}
use loomctl.Server.ApiKeys.Fields.{
  Platform, Generated, ApiKeyCreateBody, api_key_from_create_body, new_api_key, optional,
  chosen_token, to_stamp, in_future, api_key_timestamp, api_key_actor, api_key_role,
  environment_name,
}
use loomctl.Base.{◌+◌, ◌*◌}
use loomctl.Base.Json.{Fields}
use loomctl.Server.ApiKeys.Fields.{member, api_key_overlap_seconds}
use loomctl.Server.ApiKeys.Store.{
  TenantPolicy, keys_of, policy_with_keys, AuditEntry, KeyState, Readings, read_policy, keys_in,
  write_policy,
}
use loomctl.Server.ApiKeys.Plans.{
  Selector, selector_of, create_body, rotate_body, Created, token_exists, plan_create, is_candidate,
  expiring_key, id_or, the_candidate, replace_candidate, Rotated, plan_rotate,
}

-- What a new key has: the digest of its token and not the token, an end in the future if any, and no
-- start.
pub record IsNew (platform : Platform) (now : ℕ) (made : Generated) (from : Option String)
    (body : ApiKeyCreateBody) (key : TenantApiKey) (token : String) : Type 0 where
  pub no_token : key.token ≡ none
  pub hashed : key.token_hash ≡ some (hash_tenant_api_token platform.digest token)
  pub named : key.id ≡ some made.key_id
  pub begun : key.not_before ≡ none
  pub from_id : key.rotated_from_id ≡ from
  pub end : Option ℕ
  pub ends : key.expires_at ≡ to_stamp end
  pub ends_later : in_future now end ≡ true
  pub chosen : chosen_token body.token made.token ≡ ok token
  pub acts : api_key_actor body.actor ≡ ok key.actor
  pub plays : api_key_role body.role ≡ ok key.role

pub api_key_from_create_body-IsNew :
    (platform : Platform) (body : ApiKeyCreateBody) (now : ℕ) (from : Option String)
    → (made : Generated) {key : TenantApiKey} {token : String}
    → api_key_from_create_body platform body now from made ≡ ok (key, token)
    → IsNew platform now made from body key token
unfolding api_key_from_create_body new_api_key
api_key_from_create_body-IsNew platform body now from made {key} {token} h =
    let (t, ht, h1) = >>=-eq-ok (chosen_token body.token made.token) _ h in
    let (e, he, h2) =
      >>=-eq-ok (optional (api_key_timestamp platform.parse_date) body.expires_at) _ h1 in
    let (hf, h3) = >>-eq-ok (check (in_future now e) invalid) _ h2 in
    let (a, ha, h4) = >>=-eq-ok (api_key_actor body.actor) _ h3 in
    let (r, hr, h5) = >>=-eq-ok (api_key_role body.role) _ h4 in
    let (m, hm, h6) = >>=-eq-ok (optional environment_name body.model_key_env) _ h5 in
    subst (λ made_key. IsNew platform now made from body made_key.0 made_key.1) (ok-injective h6)
      (record {
        no_token = refl;
        hashed = refl;
        named = refl;
        begun = refl;
        from_id = refl;
        end = e;
        ends = refl;
        ends_later = check-eq-ok (in_future now e) invalid hf;
        chosen = ht;
        acts = ha;
        plays = hr;
      })

pub keys_of-policy_with_keys :
    (existing : Option TenantPolicy) (keys : List TenantApiKey)
    → keys_of (some (policy_with_keys existing keys)) ≡ keys
unfolding policy_with_keys
keys_of-policy_with_keys none keys = refl
keys_of-policy_with_keys (some policy) keys = refl

-- A written policy is read back, and the other tenants keep theirs.
pub keys_in-write_policy :
    (tenant other : String) (policy : TenantPolicy) (entry : AuditEntry) (state : KeyState)
    → keys_in (write_policy tenant policy entry state) other
      ≡ (if tenant == other then keys_of (some policy) else keys_in state other)
unfolding keys_in read_policy write_policy
keys_in-write_policy tenant other policy entry state =
    ap keys_of (lookup-insert tenant other policy state.policies)
    ∙ elim (Bool-cases (tenant == other)) [
      | inl same ↦ rw same refl
      | inr differs ↦ rw differs refl
    ]

eq_false_of_not : (b : Bool) → not b ≡ true → b ≡ false
eq_false_of_not true h = cc
eq_false_of_not false h = refl

the_candidate-eq-ok :
    (keys : List TenantApiKey) (key : TenantApiKey) → the_candidate keys ≡ ok key → keys ≡ key ∷ []
unfolding the_candidate
the_candidate-eq-ok [] key h = cc
the_candidate-eq-ok (one ∷ []) key h = cc
the_candidate-eq-ok (one ∷ (other ∷ keys)) key h = cc

module _ (platform : Platform) (configured : List TenantApiKey) (body : Fields) (made : Generated)
    (at : Readings) (existing : Option TenantPolicy) where
  pub record IsCreated (plan : Created) : Type 0 where
    pub is_new : IsNew platform at.now made none (create_body body) plan.key plan.token
    pub unknown :
        token_exists platform configured (keys_of existing) plan.token at.compared_at ≡ false
    pub keys : keys_of (some plan.policy) ≡ keys_of existing ++ plan.key ∷ []

  pub plan_create-IsCreated :
      (plan : Created)
      → plan_create platform configured body made at existing ≡ ok plan
      → IsCreated plan
  unfolding plan_create
  plan_create-IsCreated plan h =
      let ((key, token), hk, h1) =
        >>=-eq-ok (api_key_from_create_body platform (create_body body) at.now none made) _ h in
      let (hu, h2) =
        >>-eq-ok
          (check (not (token_exists platform configured (keys_of existing) token at.compared_at))
            invalid)
          _ h1 in
      subst IsCreated (ok-injective h2) (record {
        is_new = api_key_from_create_body-IsNew platform (create_body body) at.now none made hk;
        unknown = eq_false_of_not _ (check-eq-ok _ invalid hu);
        keys = keys_of-policy_with_keys existing _;
      })

  pub record IsRotated (plan : Rotated) : Type 0 where
    pub selector : Selector
    pub named : selector_of body ≡ ok selector
    pub one : keep (is_candidate selector at.searched_at) (keys_of existing) ≡ plan.current ∷ []
    pub previous :
        plan.previous
        ≡ expiring_key plan.current
            (id_or plan.current.id made.previous_id)
            (at.now + plan.overlap_seconds * 1000)
    pub is_new :
        IsNew platform at.now made
          (some (id_or plan.current.id made.previous_id))
          (rotate_body body plan.current)
          plan.key
          plan.token
    pub unknown :
        token_exists platform configured (keys_of existing) plan.token at.compared_at ≡ false
    pub keys :
        keys_of (some plan.policy)
        ≡ replace_candidate (is_candidate selector at.searched_at) plan.previous (keys_of existing)
          ++ plan.key ∷ []

  pub plan_rotate-IsRotated :
      (plan : Rotated)
      → plan_rotate platform configured body made at existing ≡ ok plan
      → IsRotated plan
  unfolding plan_rotate
  plan_rotate-IsRotated plan h =
      let (selector, hs, h1) = >>=-eq-ok (selector_of body) _ h in
      let (overlap, ho, h2) =
        >>=-eq-ok (api_key_overlap_seconds platform.number_of (member "overlapSeconds" body)) _
          h1 in
      let (current, hc, h3) =
        >>=-eq-ok (the_candidate (keep (is_candidate selector at.searched_at) (keys_of existing))) _
          h2 in
      let id = id_or current.id made.previous_id in
      let ((key, token), hk, h4) =
        >>=-eq-ok
          (api_key_from_create_body platform (rotate_body body current) at.now (some id) made) _
          h3 in
      let (hu, h5) =
        >>-eq-ok
          (check (not (token_exists platform configured (keys_of existing) token at.compared_at))
            invalid)
          _ h4 in
      subst IsRotated (ok-injective h5) (record {
        selector = selector;
        named = hs;
        one = the_candidate-eq-ok _ current hc;
        previous = refl;
        is_new =
            api_key_from_create_body-IsNew platform (rotate_body body current) at.now (some id) made
              hk;
        unknown = eq_false_of_not _ (check-eq-ok _ invalid hu);
        keys = keys_of-policy_with_keys existing _;
      })
