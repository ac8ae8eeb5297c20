-- ===== src/Server/ApiKeys/Revoked.antt =====
-- src/harness/server-api-keys.ts with src/harness/server/tenants.ts: who is let in after a revocation.
use loomctl.Base.{
  ℕ, ◌≡◌, refl, sym, ap, ◌∙◌, inl, inr, Bool, true, false, not, ◌&&◌, String, none, some, List, [],
  ◌∷◌, ◌++◌, ◌==◌, eq_refl, arith, if◌then◌else◌, Bool-cases, ok, err, unauthorized, ok-injective,
  All, keep, any, find,
}
use loomctl.Base.Directory.{lookup}
use loomctl.Server.Access.{
  TenantRole, TenantApiKey, AuthOptions, Credentials, configured_keys, has_global_auth, is_nonempty,
  present, safe_equal_string, provided_credential, header_credential, tenant_api_key_matches,
  oidc_test, last_test, key_test, by_oidc, by_token, by_key, require_tenant_access,
}
use loomctl.Server.Access.Grounds.{last_test-err}
use loomctl.Server.ApiKeys.Fields.{Platform}
use loomctl.Server.ApiKeys.Store.{KeyState, read_policy, keys_in, keys_of}
use loomctl.Server.ApiKeys.Plans.{
  Selector, selects, selector_of, Created, plan_create, Revoked, plan_revoke,
}
use loomctl.Server.ApiKeys.Handlers.{
  KeyRequest, Opened, open_request, commit_create, commit_revoke, revoke_in,
}
use loomctl.Server.ApiKeys.Made.{
  keys_in-write_policy, keys_of-policy_with_keys, plan_create-IsCreated,
}

-- The keys that a revocation leaves.
abbrev left : Selector → List TenantApiKey → List TenantApiKey
left selector keys = keep (λ key. not (selects selector key)) keys

find-none :
    (p : TenantApiKey → Bool) (keys : List TenantApiKey) → any p keys ≡ false → find p keys ≡ none
find-none p [] h = refl
find-none p (key ∷ keys) h = ground (arith, find-none p keys)

any-left :
    (p : TenantApiKey → Bool) (selector : Selector) (configured keys : List TenantApiKey)
    → any p configured ≡ false
    → All (λ key. p key ≡ true → selects selector key ≡ true) keys
    → any p (configured ++ left selector keys) ≡ false
any-left p selector [] [] h hs = refl
any-left p selector [] (key ∷ keys) h (one, hs) = elim (Bool-cases (selects selector key)) [
  | inl gone ↦ rw gone (any-left p selector [] keys refl hs)
  | inr kept ↦ elim (Bool-cases (p key)) [
    | inl passes ↦ absurd (cc (one passes, kept))
    | inr fails ↦ rw (kept, fails) (any-left p selector [] keys refl hs)
  ]
]
any-left p selector (key ∷ configured) keys h hs =
    ground (arith, h, any-left p selector configured keys)

none_left :
    (selector : Selector) (keys : List TenantApiKey)
    → All (λ key. selects selector key ≡ true) keys
    → left selector keys ≡ []
none_left selector [] h = refl
none_left selector (key ∷ keys) (h, hs) = rw h (none_left selector keys hs)

revoked_policy :
    (selector : Selector) (state : KeyState) (tenant : String)
    → keys_of (some (plan_revoke selector (read_policy state tenant)).policy)
      ≡ left selector (keys_in state tenant)
unfolding plan_revoke keys_in
revoked_policy selector state tenant = keys_of-policy_with_keys (read_policy state tenant) _

module _ (platform : Platform) (options : AuthOptions) where
  -- A revocation leaves the keys of its tenant that it does not select, and other tenants alone.
  pub revoke-keys :
      (segment other : String) (req : KeyRequest) (state after : KeyState) (opened : Opened)
      → (selector : Selector) (plan : Revoked)
      → open_request platform options req segment state ≡ ok opened
      → selector_of opened.body ≡ ok selector
      → revoke_in platform options (some segment) req state ≡ ok (some plan, after)
      → keys_in after other ≡ (
          if opened.tenant == other
          then left selector (keys_in state opened.tenant)
          else keys_in state other)
  unfolding revoke_in commit_revoke
  revoke-keys segment other req state after opened selector plan o s h =
      let existing = read_policy state opened.tenant in
      let done = ok-injective (rw s at (rw o at h)) in
      ap (λ r. keys_in r.1 other) (sym done)
      ∙ keys_in-write_policy opened.tenant other (plan_revoke selector existing).policy _ state
      ∙ ap (λ keys. if opened.tenant == other then keys else keys_in state other)
          (revoked_policy selector state opened.tenant)

  left_in :
      (segment : String) (req : KeyRequest) (state after : KeyState) (opened : Opened)
      → (selector : Selector) (plan : Revoked)
      → open_request platform options req segment state ≡ ok opened
      → selector_of opened.body ≡ ok selector
      → revoke_in platform options (some segment) req state ≡ ok (some plan, after)
      → keys_in after opened.tenant ≡ left selector (keys_in state opened.tenant)
  left_in segment req state after opened selector plan o s h =
      revoke-keys segment opened.tenant req state after opened selector plan o s h
      ∙ rw (eq_refl opened.tenant)

  no_oidc :
      (req : Credentials) (tenant : String) (required : TenantRole)
      → options.oidc ≡ none
      → (present (lookup tenant options.tenant_tokens)
          && safe_equal_string (provided_credential req) (lookup tenant options.tenant_tokens))
        ≡ false
      → by_token options req tenant required ≡ err unauthorized
  unfolding by_token by_oidc oidc_test
  no_oidc req tenant required o t = rw t (
      ap
        (λ oidc.
          oidc_test oidc (header_credential req) tenant required
            (last_test (provided_credential req) (lookup tenant options.tenant_tokens)))
        o
      ∙ last_test-err (provided_credential req) (lookup tenant options.tenant_tokens) t)

  no_key :
      (req : Credentials) (tenant : String) (required : TenantRole) (now : ℕ)
      → (keys : List TenantApiKey)
      → any (λ key. tenant_api_key_matches platform.digest key (provided_credential req) now) keys
        ≡ false
      → by_key platform.digest options keys req tenant required now
        ≡ by_token options req tenant required
  unfolding by_key key_test
  no_key req tenant required now keys k =
      ap (λ found. key_test found required (by_token options req tenant required))
        (find-none (λ key. tenant_api_key_matches platform.digest key (provided_credential req) now)
          keys k)

  -- Who has no live key, no token of the operator and no OIDC identity is refused, where any
  -- authentication is set up.
  pub no_entry :
      (req : Credentials) (tenant : String) (required : TenantRole) (now : ℕ)
      → (policy_keys : List TenantApiKey) → options.oidc ≡ none
      → (present (lookup tenant options.tenant_tokens)
          && safe_equal_string (provided_credential req) (lookup tenant options.tenant_tokens))
        ≡ false
      → any
          (λ key. tenant_api_key_matches platform.digest key (provided_credential req) now)
          (configured_keys options tenant ++ policy_keys)
        ≡ false
      → (not (has_global_auth options) && not (is_nonempty policy_keys)) ≡ false
      → require_tenant_access platform.digest options policy_keys req tenant required now
        ≡ err unauthorized
  unfolding require_tenant_access
  no_entry req tenant required now policy_keys o t k a =
      let refused =
        no_key req tenant required now (configured_keys options tenant ++ policy_keys) k
        ∙ no_oidc req tenant required o t in
      ground (arith, a, refused)

  -- Once a revocation has gone through, a credential that no key answers to but those that it
  -- selected is refused, whatever the role that is asked for, unless OIDC is set up, the
  -- credential is the operator's token, or no authentication is left at all.
  pub revoked_refused :
      (segment : String) (req : KeyRequest) (state after : KeyState) (opened : Opened)
      → (selector : Selector) (plan : Revoked)
      → (later : Credentials) (required : TenantRole) (now : ℕ)
      → open_request platform options req segment state ≡ ok opened
      → selector_of opened.body ≡ ok selector
      → revoke_in platform options (some segment) req state ≡ ok (some plan, after)
      → options.oidc ≡ none
      → (present (lookup opened.tenant options.tenant_tokens)
          && safe_equal_string
              (provided_credential later)
              (lookup opened.tenant options.tenant_tokens))
        ≡ false
      → any
          (λ key. tenant_api_key_matches platform.digest key (provided_credential later) now)
          (configured_keys options opened.tenant)
        ≡ false
      → All
          (λ key.
            tenant_api_key_matches platform.digest key (provided_credential later) now ≡ true
            → selects selector key ≡ true)
          (keys_in state opened.tenant)
      → (not (has_global_auth options) && not (is_nonempty (keys_in after opened.tenant))) ≡ false
      → require_tenant_access platform.digest options
          (keys_in after opened.tenant)
          later
          opened.tenant
          required
          now
        ≡ err unauthorized
  revoked_refused segment req state after opened selector plan later required now o s h oidc t c m
        a =
      no_entry later opened.tenant required now (keys_in after opened.tenant) oidc t
        (ap
            (λ keys.
              any
                (λ key. tenant_api_key_matches platform.digest key (provided_credential later) now)
                (configured_keys options opened.tenant ++ keys))
            (left_in segment req state after opened selector plan o s h)
          ∙ any-left
              (λ key. tenant_api_key_matches platform.digest key (provided_credential later) now)
              selector (configured_keys options opened.tenant) (keys_in state opened.tenant) c m)
        a

  -- A revocation that selects every key of a tenant, on a server that the operator gave no
  -- authentication of its own, opens the tenant: from then on every request is let in, with any
  -- credential or none, also where the role of an admin is asked for.
  pub revoke_last_opens :
      (segment : String) (req : KeyRequest) (state after : KeyState) (opened : Opened)
      → (selector : Selector) (plan : Revoked)
      → (later : Credentials) (required : TenantRole) (now : ℕ)
      → open_request platform options req segment state ≡ ok opened
      → selector_of opened.body ≡ ok selector
      → revoke_in platform options (some segment) req state ≡ ok (some plan, after)
      → has_global_auth options ≡ false
      → All (λ key. selects selector key ≡ true) (keys_in state opened.tenant)
      → require_tenant_access platform.digest options
          (keys_in after opened.tenant)
          later
          opened.tenant
          required
          now
        ≡ ok none
  unfolding require_tenant_access
  revoke_last_opens segment req state after opened selector plan later required now o s h g m =
      let gone =
        left_in segment req state after opened selector plan o s h
        ∙ none_left selector (keys_in state opened.tenant) m in
      rw (gone, g)

  -- A request to create a key that has read the policy before a revocation and writes it after brings
  -- the revoked keys back: it stores every key that it read, whatever was written in between.
  pub create_restores :
      (body : KeyRequest) (opened : Opened) (plan : Created) (state meanwhile : KeyState)
      → plan_create platform
          (configured_keys options opened.tenant)
          opened.body
          body.made
          body.at
          (read_policy state opened.tenant)
        ≡ ok plan
      → keys_in
          (commit_create opened (read_policy state opened.tenant) plan body.at meanwhile)
          opened.tenant
        ≡ keys_in state opened.tenant ++ plan.key ∷ []
  unfolding commit_create keys_in
  create_restores body opened plan state meanwhile h =
      let made =
        plan_create-IsCreated platform (configured_keys options opened.tenant) opened.body body.made
          body.at (read_policy state opened.tenant) plan h in
      keys_in-write_policy opened.tenant opened.tenant plan.policy _ meanwhile
      ∙ (rw (eq_refl opened.tenant) made.keys)
