-- ===== src/Server/ApiKeys/Rotation.antt =====
-- src/harness/server-api-keys.ts: what the keys that were made and replaced answer to.
use loomctl.Base.{
  ℕ, ◌+◌, ◌*◌, ◌≤◌, All, false, ◌≡◌, sym, ap, ◌∙◌, true, false, ◌&&◌, String, Option, none, some,
  List, [], ◌∷◌, ◌++◌, eq_refl, arith, ltb, ok, >>=-eq-ok, ok-injective, any,
}
use loomctl.Server.Access.{
  TenantRole, TenantApiKey, AuthOptions, Credentials, configured_keys, present, has_begun,
  has_not_ended, provided_credential, tenant_api_key_matches, key_test, require_tenant_role,
  by_token, by_key, require_tenant_access,
}
use loomctl.Server.ApiKeys.Fields.{Platform}
use loomctl.Server.ApiKeys.Store.{KeyState, read_policy, keys_in, keys_of}
use loomctl.Server.ApiKeys.Plans.{
  Selector, selector_of, selects, Created, plan_create, token_exists, Rotated, plan_rotate,
  is_candidate,
}
use loomctl.Server.ApiKeys.Handlers.{
  KeyRequest, Opened, open_request, commit_create, create_in, commit_rotate, rotate_in,
}
use loomctl.Server.ApiKeys.Made.{keys_in-write_policy, plan_create-IsCreated, plan_rotate-IsRotated}
use loomctl.Server.ApiKeys.Answers.{
  IsNew-matches, find-last, nonempty-last, append_assoc, still_unknown, some_injective, access_of,
  second_true,
}
use loomctl.Server.ApiKeys.Replaced.{
  found_passes, both_true, expiring-matches, one_replaced, IsNamed, selects-IsNamed,
}

module _ (platform : Platform) (options : AuthOptions) where
  first_match :
      (cred : Credentials) (tenant : String) (required : TenantRole) (now : ℕ)
      → (old : List TenantApiKey) (key : TenantApiKey)
      → any
          (λ k. tenant_api_key_matches platform.digest k (provided_credential cred) now)
          (configured_keys options tenant ++ old)
        ≡ false
      → tenant_api_key_matches platform.digest key (provided_credential cred) now ≡ true
      → require_tenant_access platform.digest options (old ++ key ∷ []) cred tenant required now
        ≡ require_tenant_role (access_of key) required
  unfolding require_tenant_access by_key key_test
  first_match cred tenant required now old key h k =
      let found =
        find-last (λ k. tenant_api_key_matches platform.digest k (provided_credential cred) now)
          (configured_keys options tenant) old key h k in
      let admitted = ap (λ f. key_test f required (by_token options cred tenant required)) found in
      ground (
        arith,
        nonempty-last [] old key,
        nonempty-last (configured_keys options tenant) old key,
        admitted,
      )

  -- Whoever has the token that a request to create a key answered with is let in as the key's actor, and
  -- in the key's role and no other, at the time of the request and at any later time until the key ends,
  -- as long as the policy is as the request left it. No key of the tenant may have been waiting for its
  -- start, and a token that the server makes up must not be empty.
  pub created_key_admits :
      (segment : String) (req : KeyRequest) (state after : KeyState) (opened : Opened)
      (plan : Created)
      → (cred : Credentials) (required : TenantRole) (t : ℕ) → present (some req.made.token) ≡ true
      → open_request platform options req segment state ≡ ok opened
      → create_in platform options (some segment) req state ≡ ok (some plan, after)
      → provided_credential cred ≡ some plan.token
      → All
          (λ key. has_begun key.not_before req.at.compared_at ≡ true)
          (configured_keys options opened.tenant ++ keys_in state opened.tenant)
      → req.at.compared_at ≤ t
      → has_not_ended plan.key.expires_at t ≡ true
      → require_tenant_access platform.digest options
          (keys_in after opened.tenant)
          cred
          opened.tenant
          required
          t
        ≡ require_tenant_role
            (record {
              actor = plan.key.actor;
              role = plan.key.role;
              model_key_env = plan.key.model_key_env;
            })
            required
  unfolding create_in commit_create token_exists keys_in
  created_key_admits segment req state after opened plan cred required t g o h c begun later live =
      let existing = read_policy state opened.tenant in
      let configured = configured_keys options opened.tenant in
      let (p, hp, e) =
        >>=-eq-ok (plan_create platform configured opened.body req.made req.at existing) _
          (rw o at h) in
      let same = some_injective (ap (λ r. r.0) (ok-injective e)) in
      let made =
        plan_create-IsCreated platform configured opened.body req.made req.at existing plan
          (hp ∙ ap ok same) in
      let keys : keys_in after opened.tenant ≡ keys_in state opened.tenant ++ plan.key ∷ [] =
        ap (λ s. keys_in s opened.tenant) (sym (ap (λ r. r.1) (ok-injective e)))
        ∙ keys_in-write_policy opened.tenant opened.tenant p.policy _ state
        ∙ (rw (eq_refl opened.tenant) (ap (λ q. keys_of (some q.policy)) same))
        ∙ made.keys in
      rw keys (
        first_match cred opened.tenant required t (keys_in state opened.tenant) plan.key
          (rw c (
            still_unknown platform.digest (some plan.token) req.at.compared_at t later
              (configured ++ keys_in state opened.tenant) begun made.unknown))
          (rw c (
            IsNew-matches platform req.at.now req.made none _ plan.key plan.token t g made.is_new
            ∙ live)))

-- What a rotation does to the keys of its tenant: one key, `current`, is replaced where it stands, and
-- `key` comes last. `previous` in its place answers to the credentials that `current` answers to, but
-- only before `end`; `key` answers to `token` until its own end.
pub record HandsOver (digest : String → String) (before after : List TenantApiKey)
    (current previous key : TenantApiKey) (token : String) (end : ℕ) : Type 0 where
  front : List TenantApiKey
  back : List TenantApiKey
  was : before ≡ front ++ current ∷ back
  is_now : after ≡ front ++ previous ∷ (back ++ key ∷ [])
  previous_answers :
      (provided : Option String) (t : ℕ)
      → tenant_api_key_matches digest previous provided t
        ≡ (tenant_api_key_matches digest current provided t && ltb t end)
  key_answers :
      (t : ℕ) → tenant_api_key_matches digest key (some token) t ≡ has_not_ended key.expires_at t

module _ (platform : Platform) (options : AuthOptions) where
  -- A rotation that went through has stored, in the place of one key that the request names, that key
  -- with an end: it answers to the same credentials as before, but only until the overlap is over. Behind
  -- all other keys, which stay as they were, it has stored the new key, which answers to the token of the
  -- answer until it ends. A token that the server makes up must not be empty.
  pub rotation-HandsOver :
      (segment : String) (req : KeyRequest) (state after : KeyState) (opened : Opened)
      (plan : Rotated)
      → present (some req.made.token) ≡ true
      → open_request platform options req segment state ≡ ok opened
      → rotate_in platform options (some segment) req state ≡ ok (some plan, after)
      → HandsOver platform.digest
          (keys_in state opened.tenant)
          (keys_in after opened.tenant)
          plan.current
          plan.previous
          plan.key
          plan.token
          (req.at.now + plan.overlap_seconds * 1000)
        × ((selector : Selector) × (selector_of opened.body ≡ ok selector)
            × IsNamed selector plan.current)
  unfolding rotate_in commit_rotate keys_in
  rotation-HandsOver segment req state after opened plan g o h =
      let existing = read_policy state opened.tenant in
      let configured = configured_keys options opened.tenant in
      let (p, hp, e) =
        >>=-eq-ok (plan_rotate platform configured opened.body req.made req.at existing) _
          (rw o at h) in
      let same = some_injective (ap (λ r. r.0) (ok-injective e)) in
      let done =
        plan_rotate-IsRotated platform configured opened.body req.made req.at existing plan
          (hp ∙ ap ok same) in
      let stored : keys_in after opened.tenant ≡ keys_of (some plan.policy) =
        ap (λ s. keys_in s opened.tenant) (sym (ap (λ r. r.1) (ok-injective e)))
        ∙ keys_in-write_policy opened.tenant opened.tenant p.policy _ state
        ∙ (rw (eq_refl opened.tenant) (ap (λ q. keys_of (some q.policy)) same)) in
      let (front, back, was, replaced) =
        one_replaced (is_candidate done.selector req.at.searched_at) plan.previous plan.current
          (keys_of existing) done.one in
      let chosen =
        found_passes (is_candidate done.selector req.at.searched_at) (keys_of existing) plan.current
          done.one in
      let active = both_true _ (selects done.selector plan.current) chosen in
      (
        record {
          front = front;
          back = back;
          was = was;
          is_now =
              stored
              ∙ done.keys
              ∙ ap (λ ks. ks ++ plan.key ∷ []) replaced
              ∙ append_assoc front (plan.previous ∷ back) (plan.key ∷ []);
          previous_answers = λ provided t.
              ap (λ k. tenant_api_key_matches platform.digest k provided t) done.previous
              ∙ expiring-matches platform.digest plan.current _
                  (req.at.now + plan.overlap_seconds * 1000) req.at.searched_at active provided t;
          key_answers = λ t.
              IsNew-matches platform req.at.now req.made _ _ plan.key plan.token t g done.is_new;
        },
        (
          done.selector,
          done.named,
          selects-IsNamed done.selector plan.current
              (second_true _ (selects done.selector plan.current) chosen),
        ),
      )
