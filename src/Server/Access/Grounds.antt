-- ===== src/Server/Access/Grounds.antt =====
-- src/harness/server/tenants.ts: why a request is let into a tenant.
use Prim.Native.String
use loomctl.Storage.Contracts.{Timestamp}
use loomctl.Base.{
  ℕ, ◌≤◌, ◌<◌, ◌||◌, ◌≡◌, refl, sym, subst, ◌⊎◌, inl, inr, Bool, true, false, not, ◌&&◌, String,
  Option, none, some, List, [], ◌∷◌, ◌++◌, ◌==◌, eq_iff, arith, Bool-cases, Result, ok, err,
  Result-cases, find,
}
use loomctl.Base.Directory.{lookup}
use loomctl.Base.{unauthorized, ltb}
use loomctl.Server.Access.{
  TenantRole, admin, developer, viewer, is_some, has_begun, has_not_ended, tenant_api_key_is_active,
  hash_tenant_api_token, tenant_role_rank, TenantApiKey, TenantAccess, OidcAccess, AuthOptions,
  Credentials, present, is_nonempty, require_tenant_role, configured_keys, has_global_auth,
  safe_equal_string, header_credential, provided_credential, tenant_api_key_matches, last_test,
  oidc_test, vouched, key_test, by_oidc, by_token, by_key, require_tenant_access,
}

both : (a b : Bool) → (a && b) ≡ true → (a ≡ true) × (b ≡ true)
both true b h = (refl, h)
both false b h = cc

either_of : (a b : Bool) → (a || b) ≡ true → (a ≡ true) ⊎ (b ≡ true)
either_of true b h = inl refl
either_of false b h = inr h

abbrev pub Among : TenantApiKey → List TenantApiKey → Type 0
Among key [] = ⊥
Among key (other ∷ keys) = (other ≡ key) ⊎ Among key keys

pub find-Among :
    (p : TenantApiKey → Bool) (keys : List TenantApiKey) (key : TenantApiKey)
    → find p keys ≡ some key
    → Among key keys × (p key ≡ true)
find-Among p [] key h = cc
find-Among p (other ∷ keys) key h = elim (Bool-cases (p other)) [
  | inl found ↦ let same : other ≡ key = ground (arith, h, found) in (inl same, rw (sym same) found)
  | inr missed ↦ let (later, passes) = find-Among p keys key (rw missed at h) in (inr later, passes)
]

pub last_test-err :
    (provided expected : Option String)
    → (present expected && safe_equal_string provided expected) ≡ false
    → last_test provided expected ≡ err unauthorized
unfolding last_test safe_equal_string
last_test-err none expected h = refl
last_test-err (some p) none h = ground arith
last_test-err (some p) (some e) h = ground (arith, eq_iff p e, eq_iff p "", eq_iff e "")

legacy_token :
    (provided expected : Option String)
    → (present expected && safe_equal_string provided expected) ≡ true
    → (token : String) × (expected ≡ some token) × ((token == "") ≡ false) × (provided ≡ some token)
unfolding safe_equal_string
legacy_token none none h = cc
legacy_token none (some e) h = ground arith
legacy_token (some p) none h = cc
legacy_token (some p) (some e) h = (e, refl, ground arith, ground (arith, eq_iff p e))

no_keys {ℓ} : {A : Type ℓ} (keys : List A) → is_nonempty keys ≡ false → keys ≡ []
no_keys [] h = refl
no_keys (key ∷ keys) h = cc

not-true : (b : Bool) → not b ≡ true → b ≡ false
not-true true h = cc
not-true false h = refl

neither : (a b : Bool) → (a || b) ≡ false → (a ≡ false) × (b ≡ false)
neither true b h = cc
neither false b h = (refl, h)

no_oidc : (o : Option (String → String → Result OidcAccess)) → is_some o ≡ false → o ≡ none
no_oidc none h = refl
no_oidc (some authenticate) h = cc

no_global_auth :
    (options : AuthOptions)
    → has_global_auth options ≡ false
    → (options.tenant_tokens ≡ []) × (options.tenant_api_keys ≡ []) × (options.oidc ≡ none)
unfolding has_global_auth
no_global_auth options h =
    let (h1, oidc) = neither _ _ h in
    let (tokens, keys) = neither _ _ h1 in
    (
      no_keys options.tenant_tokens tokens,
      no_keys options.tenant_api_keys keys,
      no_oidc options.oidc oidc,
    )

-- The start of the key, if it has one, is a date that has come, and its end one that has not.
pub record IsLive (key : TenantApiKey) (now : ℕ) : Type 0 where
  pub begun : (key.not_before ≡ none) ⊎ ((ms : ℕ) × (key.not_before ≡ some (some ms)) × (ms ≤ now))
  pub lasting :
      (key.expires_at ≡ none) ⊎ ((ms : ℕ) × (key.expires_at ≡ some (some ms)) × (now < ms))

-- The key has the token, or its digest.
abbrev pub AnswersTo : (String → String) → TenantApiKey → String → Type 0
AnswersTo digest key token =
    (key.token ≡ some token) ⊎ (key.token_hash ≡ some (String.◌++◌ "sha256:" (digest token)))

-- Who has the second role may do what asks for the first.
abbrev pub Covers : TenantRole → TenantRole → Type 0
Covers viewer role = Unit
Covers developer viewer = ⊥
Covers developer developer = Unit
Covers developer admin = Unit
Covers admin viewer = ⊥
Covers admin developer = ⊥
Covers admin admin = Unit

has_begun-date :
    (start : Option Timestamp) (now : ℕ)
    → has_begun start now ≡ true
    → (start ≡ none) ⊎ ((ms : ℕ) × (start ≡ some (some ms)) × (ms ≤ now))
has_begun-date none now h = inl refl
has_begun-date (some none) now h = cc
has_begun-date (some (some ms)) now h = inr (ms, refl, ground arith)

has_not_ended-date :
    (end : Option Timestamp) (now : ℕ)
    → has_not_ended end now ≡ true
    → (end ≡ none) ⊎ ((ms : ℕ) × (end ≡ some (some ms)) × (now < ms))
has_not_ended-date none now h = inl refl
has_not_ended-date (some none) now h = cc
has_not_ended-date (some (some ms)) now h = inr (ms, refl, ground arith)

active-IsLive :
    (key : TenantApiKey) (now : ℕ) → tenant_api_key_is_active key now ≡ true → IsLive key now
unfolding tenant_api_key_is_active
active-IsLive key now h =
    let (begun, lasting) = both _ _ h in
    record {
      begun = has_begun-date key.not_before now begun;
      lasting = has_not_ended-date key.expires_at now lasting;
    }

same_string :
    (left right : Option String) (token : String)
    → left ≡ some token
    → safe_equal_string left right ≡ true
    → right ≡ some token
unfolding safe_equal_string
same_string left none token l h = ground (arith, l, h)
same_string left (some other) token l h = ground (arith, l, h, eq_iff token other)

matches-grounds :
    (digest : String → String) (key : TenantApiKey) (provided : Option String) (now : ℕ)
    → tenant_api_key_matches digest key provided now ≡ true
    → (token : String) × (provided ≡ some token)
      × ((token == "") ≡ false)
      × IsLive key now
      × AnswersTo digest key token
unfolding tenant_api_key_matches hash_tenant_api_token
matches-grounds digest key none now h = cc
matches-grounds digest key (some token) now h =
    let (h1, h2) = both _ _ h in
    let (given, live) = both (present (some token)) (tenant_api_key_is_active key now) h1 in
    let plain = present key.token && safe_equal_string (some token) key.token in
    let hashed =
      present key.token_hash
      && safe_equal_string (some (hash_tenant_api_token digest token)) key.token_hash in
    (
      token,
      refl,
      ground (arith, given),
      active-IsLive key now live,
      elim (either_of plain hashed h2) [
        | inl h3 ↦
            inl (same_string (some token) key.token token refl (both (present key.token) _ h3).1)
        | inr h3 ↦ inr (
            same_string (some (hash_tenant_api_token digest token)) key.token_hash _ refl
              (both (present key.token_hash) _ h3).1)
      ],
    )

rank-Covers :
    (required role : TenantRole)
    → ltb (tenant_role_rank role) (tenant_role_rank required) ≡ false
    → Covers required role
unfolding tenant_role_rank
rank-Covers viewer role h = tt
rank-Covers developer viewer h = cc
rank-Covers developer developer h = tt
rank-Covers developer admin h = tt
rank-Covers admin viewer h = cc
rank-Covers admin developer h = cc
rank-Covers admin admin h = tt

module _ (digest : String → String) (options : AuthOptions) (policy_keys : List TenantApiKey)
    (req : Credentials) (tenant : String) (required : TenantRole) (now : ℕ) where
  -- A live key of the tenant, its token of the operator, or its OIDC identity.
  pub data Grounds (access : TenantAccess) : Type 0 where
    with_key :
        (key : TenantApiKey)
        → Among key (configured_keys options tenant ++ policy_keys)
        → (token : String) → provided_credential req ≡ some token
        → (token == "") ≡ false
        → IsLive key now
        → AnswersTo digest key token
        → access.actor ≡ key.actor
        → access.role ≡ key.role
        → Grounds access
    with_token :
        (token : String)
        → lookup tenant options.tenant_tokens ≡ some token
        → (token == "") ≡ false
        → provided_credential req ≡ some token
        → access.actor ≡ "legacy-token"
        → access.role ≡ admin
        → Grounds access
    with_oidc :
        (authenticate : String → String → Result OidcAccess) (credential : String)
        → (identity : OidcAccess) → options.oidc ≡ some authenticate
        → header_credential req ≡ some credential
        → authenticate credential tenant ≡ ok identity
        → access.actor ≡ identity.actor
        → access.role ≡ identity.role
        → Grounds access

  abbrev pub Entitled : Option TenantAccess → Type 0
  Entitled none =
      (options.tenant_tokens ≡ [])
      × (options.tenant_api_keys ≡ [])
      × (options.oidc ≡ none)
      × (policy_keys ≡ [])
  Entitled (some access) = Covers required access.role × Grounds access

  abbrev Justified : Result (Option TenantAccess) → Type 0
  Justified (err e) = Unit
  Justified (ok answer) = Entitled answer

  role_enough :
      (access : TenantAccess) → Grounds access → Justified (require_tenant_role access required)
  unfolding require_tenant_role
  role_enough access g =
      elim (Bool-cases (ltb (tenant_role_rank access.role) (tenant_role_rank required))) [
        | inl low ↦ rw low tt
        | inr enough ↦ rw enough (rank-Covers required access.role enough, g)
      ]

  oidc_test-Justified :
      (oidc : Option (String → String → Result OidcAccess)) (given : Option String)
      → (final : Result (Option TenantAccess)) → options.oidc ≡ oidc
      → header_credential req ≡ given
      → Justified final
      → Justified (oidc_test oidc given tenant required final)
  unfolding oidc_test vouched
  oidc_test-Justified none given final o c h = h
  oidc_test-Justified (some authenticate) none final o c h = h
  oidc_test-Justified (some authenticate) (some credential) final o c h =
      elim (Bool-cases (credential == "")) [
        | inl empty ↦ rw empty h
        | inr given ↦ elim (Result-cases (authenticate credential tenant)) [
          | inl (e, failed) ↦ rw (given, failed) tt
          | inr (identity, a) ↦
              rw (given, a)
                (role_enough _ (with_oidc authenticate credential identity o c a refl refl))
        ]
      ]

  by_oidc-Justified :
      (present (lookup tenant options.tenant_tokens)
          && safe_equal_string (provided_credential req) (lookup tenant options.tenant_tokens))
        ≡ false
      → Justified (by_oidc options req tenant required)
  unfolding by_oidc
  by_oidc-Justified h =
      oidc_test-Justified options.oidc (header_credential req) _ refl refl
        (rw (last_test-err (provided_credential req) (lookup tenant options.tenant_tokens) h) tt)

  by_token-Justified : Justified (by_token options req tenant required)
  unfolding by_token
  by_token-Justified =
      elim (Bool-cases (
        present (lookup tenant options.tenant_tokens)
        && safe_equal_string (provided_credential req) (lookup tenant options.tenant_tokens))) [
          | inl same ↦
              let (token, t, nonempty, given) = legacy_token _ _ same in
              rw same (role_enough _ (with_token token t nonempty given refl refl))
          | inr other ↦ rw other (by_oidc-Justified other)
        ]

  key_test-Justified :
      (found : Option TenantApiKey) (rest : Result (Option TenantAccess))
      → find
          (λ key. tenant_api_key_matches digest key (provided_credential req) now)
          (configured_keys options tenant ++ policy_keys)
        ≡ found
      → Justified rest
      → Justified (key_test found required rest)
  unfolding key_test
  key_test-Justified none rest e h = h
  key_test-Justified (some key) rest e h =
      let (among, matches) = find-Among _ _ key e in
      let (token, given, nonempty, live, answers) =
        matches-grounds digest key (provided_credential req) now matches in
      role_enough _ (with_key key among token given nonempty live answers refl refl)

  by_key-Justified : Justified (
      by_key digest options (configured_keys options tenant ++ policy_keys) req tenant required now)
  unfolding by_key
  by_key-Justified = key_test-Justified _ _ refl by_token-Justified

  answer-Justified :
      Justified (require_tenant_access digest options policy_keys req tenant required now)
  unfolding require_tenant_access
  answer-Justified =
      elim (Bool-cases (not (has_global_auth options) && not (is_nonempty policy_keys))) [
        | inl open_server ↦
            let (global, policy) = both _ _ open_server in
            let (tokens, keys, oidc) = no_global_auth options (not-true _ global) in
            rw open_server (tokens, keys, oidc, no_keys policy_keys (not-true _ policy))
        | inr some_auth ↦ rw some_auth (ground (arith, by_key-Justified))
      ]

  -- Whoever is let into a tenant has the role that is asked for or a higher one: by a key of the tenant
  -- that has begun and not ended and that has the credential as its token or the digest of it, and as
  -- its actor and in its role; by the tenant's token, as an admin; or by an identity that the OIDC
  -- authenticator vouches for. Without any of these a request is let in only where no authentication is
  -- set up at all, neither by the operator nor in the tenant's policy.
  pub access_justified :
      (answer : Option TenantAccess)
      → require_tenant_access digest options policy_keys req tenant required now ≡ ok answer
      → Entitled answer
  access_justified answer h = subst Justified h answer-Justified
