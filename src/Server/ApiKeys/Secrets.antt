-- ===== src/Server/ApiKeys/Secrets.antt =====
-- src/harness/server-api-keys.ts: what is stored of the tokens, over any history of requests.
use Prim.Native.String
use loomctl.Base.{
  ℕ, ◌⊎◌, ◌≡◌, refl, subst, inl, inr, Bool, not, String, Option, none, some, List, [], ◌∷◌, ◌==◌,
  arith, Bool-cases, Result, ok, err, after, ◌>>=◌, All, All-append, All-keep, keep,
}
use loomctl.Server.Access.{TenantApiKey, AuthOptions, configured_keys, hash_tenant_api_token}
use loomctl.Server.ApiKeys.Fields.{Platform, Generated, ApiKeyCreateBody}
use loomctl.Server.ApiKeys.Store.{
  TenantPolicy, keys_of, AuditEntry, KeyState, read_policy, keys_in, write_policy,
}
use loomctl.Server.ApiKeys.Plans.{
  selects, selector_of, plan_create, is_candidate, replace_candidate, plan_rotate, plan_revoke,
}
use loomctl.Server.ApiKeys.Handlers.{
  KeyRequest, create, rotate, revoke, open_request, commit_create, commit_rotate, commit_revoke,
  create_in, rotate_in, revoke_in, handle_create, handle_rotate, handle_revoke, route_tenant,
}
use loomctl.Server.ApiKeys.Made.{
  IsNew, keys_in-write_policy, keys_of-policy_with_keys, plan_create-IsCreated,
  plan_rotate-IsRotated,
}

-- A key is stored without its token: at most with "sha256:" and the digest of one.
abbrev pub IsHidden : (String → String) → TenantApiKey → Type 0
IsHidden digest key =
    (key.token ≡ none)
    × ((key.token_hash ≡ none)
        ⊎ ((token : String) × (key.token_hash ≡ some (String.◌++◌ "sha256:" (digest token)))))

abbrev pub Hidden : (String → String) → List TenantApiKey → Type 0
Hidden digest = All (IsHidden digest)

-- No stored key has its token beside the digest, or in its place.
abbrev pub OnlyDigests : (String → String) → KeyState → Type 0
OnlyDigests digest state = (tenant : String) → Hidden digest (keys_in state tenant)

after-bind {ℓ κ μ ν} :
    {V : Type ℓ} {A : Type κ} {S : Type μ} (P : S → Type ν) (s : S) (m : Result V)
    → (k : V → Result (A × S)) → P s
    → ((v : V) → m ≡ ok v → P (after s (k v)))
    → P (after s (m >>= k))
after-bind P s (err e) k h later = h
after-bind P s (ok v) k h later = later v refl

module _ (digest : String → String) where
  write_policy-OnlyDigests :
      (tenant : String) (policy : TenantPolicy) (entry : AuditEntry) (state : KeyState)
      → Hidden digest (keys_of (some policy))
      → OnlyDigests digest state
      → OnlyDigests digest (write_policy tenant policy entry state)
  write_policy-OnlyDigests tenant policy entry state new old other =
      rw (keys_in-write_policy tenant other policy entry state)
        (elim (Bool-cases (tenant == other)) [
          | inl same ↦ rw same new
          | inr differs ↦ rw differs (old other)
        ])

  replace-NoToken :
      (p : TenantApiKey → Bool) (replacement : TenantApiKey) (keys : List TenantApiKey)
      → IsHidden digest replacement
      → Hidden digest keys
      → Hidden digest (replace_candidate p replacement keys)
  replace-NoToken p replacement [] e h = tt
  replace-NoToken p replacement (key ∷ keys) e (h, hs) =
      (ground (arith, h, e), replace-NoToken p replacement keys e hs)

  -- The one key that a filter finds has what all keys have.
  found-NoToken :
      (p : TenantApiKey → Bool) (keys : List TenantApiKey) (key : TenantApiKey)
      → keep p keys ≡ key ∷ []
      → Hidden digest keys
      → IsHidden digest key
  found-NoToken p keys key e h = (subst (Hidden digest) e (All-keep (IsHidden digest) p keys h)).0

  read_policy-NoToken :
      (state : KeyState) (tenant : String)
      → OnlyDigests digest state
      → Hidden digest (keys_of (read_policy state tenant))
  unfolding keys_in
  read_policy-NoToken state tenant h = h tenant

module _ (platform : Platform) (options : AuthOptions) where
  IsNew-IsHidden :
      {now : ℕ} {made : Generated} {from : Option String} {body : ApiKeyCreateBody}
      → {key : TenantApiKey} {token : String} → IsNew platform now made from body key token
      → IsHidden platform.digest key
  unfolding hash_tenant_api_token
  IsNew-IsHidden {token = token} n = (n.no_token, inr (token, n.hashed))

  create_in-OnlyDigests :
      (segment : Option String) (req : KeyRequest) (state : KeyState)
      → OnlyDigests platform.digest state
      → OnlyDigests platform.digest (after state (create_in platform options segment req state))
  unfolding create_in commit_create
  create_in-OnlyDigests none req state h = h
  create_in-OnlyDigests (some segment) req state h =
      after-bind (OnlyDigests platform.digest) state
        (open_request platform options req segment state) _ h
        λ opened _.
          after-bind (OnlyDigests platform.digest) state
            (plan_create platform (configured_keys options opened.tenant) opened.body req.made
              req.at (read_policy state opened.tenant))
            _ h
            λ plan planned.
              let made =
                plan_create-IsCreated platform (configured_keys options opened.tenant) opened.body
                  req.made req.at (read_policy state opened.tenant) plan planned in
              write_policy-OnlyDigests platform.digest opened.tenant plan.policy _ state
                (rw made.keys (
                  All-append (IsHidden platform.digest) _ _
                    (read_policy-NoToken platform.digest state opened.tenant h)
                    (IsNew-IsHidden made.is_new, tt)))
                h

  rotate_in-OnlyDigests :
      (segment : Option String) (req : KeyRequest) (state : KeyState)
      → OnlyDigests platform.digest state
      → OnlyDigests platform.digest (after state (rotate_in platform options segment req state))
  unfolding rotate_in commit_rotate
  rotate_in-OnlyDigests none req state h = h
  rotate_in-OnlyDigests (some segment) req state h =
      after-bind (OnlyDigests platform.digest) state
        (open_request platform options req segment state) _ h
        λ opened _.
          after-bind (OnlyDigests platform.digest) state
            (plan_rotate platform (configured_keys options opened.tenant) opened.body req.made
              req.at (read_policy state opened.tenant))
            _ h
            λ plan planned.
              let made =
                plan_rotate-IsRotated platform (configured_keys options opened.tenant) opened.body
                  req.made req.at (read_policy state opened.tenant) plan planned in
              let old = read_policy-NoToken platform.digest state opened.tenant h in
              write_policy-OnlyDigests platform.digest opened.tenant plan.policy _ state
                (rw made.keys (
                  All-append (IsHidden platform.digest) _ _
                    (replace-NoToken platform.digest (is_candidate made.selector req.at.searched_at)
                      plan.previous _
                      (rw made.previous
                        (found-NoToken platform.digest _ _ plan.current made.one old))
                      old)
                    (IsNew-IsHidden made.is_new, tt)))
                h

  revoke_in-OnlyDigests :
      (segment : Option String) (req : KeyRequest) (state : KeyState)
      → OnlyDigests platform.digest state
      → OnlyDigests platform.digest (after state (revoke_in platform options segment req state))
  unfolding revoke_in commit_revoke plan_revoke
  revoke_in-OnlyDigests none req state h = h
  revoke_in-OnlyDigests (some segment) req state h =
      after-bind (OnlyDigests platform.digest) state
        (open_request platform options req segment state) _ h
        λ opened _.
          after-bind (OnlyDigests platform.digest) state (selector_of opened.body) _ h λ selector _.
            write_policy-OnlyDigests platform.digest opened.tenant
              (plan_revoke selector (read_policy state opened.tenant)).policy _ state
              (rw (keys_of-policy_with_keys (read_policy state opened.tenant) _) (
                All-keep (IsHidden platform.digest) (λ key. not (selects selector key)) _
                  (read_policy-NoToken platform.digest state opened.tenant h)))
              h

  -- The requests that the three routes serve.
  pub data KeyCall : Type 0 where
    creates rotates revokes : KeyRequest → KeyCall

  abbrev pub serve_key_call : KeyCall → KeyState → KeyState
  serve_key_call (creates req) state = after state (handle_create platform options req state)
  serve_key_call (rotates req) state = after state (handle_rotate platform options req state)
  serve_key_call (revokes req) state = after state (handle_revoke platform options req state)

  abbrev pub serve_key_calls : List KeyCall → KeyState → KeyState
  serve_key_calls [] state = state
  serve_key_calls (call ∷ calls) state = serve_key_calls calls (serve_key_call call state)

  -- Whatever requests the routes serve, those that fail included: if before them the policies hold of a
  -- token nothing but its digest, then they do after them. The digest is the one that the platform gives.
  pub only_digests :
      (calls : List KeyCall) (state : KeyState)
      → OnlyDigests platform.digest state
      → OnlyDigests platform.digest (serve_key_calls calls state)
  unfolding handle_create handle_rotate handle_revoke
  only_digests [] state h = h
  only_digests (creates req ∷ calls) state h =
      only_digests calls _ (create_in-OnlyDigests (route_tenant create req) req state h)
  only_digests (rotates req ∷ calls) state h =
      only_digests calls _ (rotate_in-OnlyDigests (route_tenant rotate req) req state h)
  only_digests (revokes req ∷ calls) state h =
      only_digests calls _ (revoke_in-OnlyDigests (route_tenant revoke req) req state h)
