-- ===== src/Server/Access.antt =====
-- src/harness/server-auth.ts and src/harness/server/tenants.ts: the keys of a tenant, and who may do
-- what in it. The digest of the tokens (SHA-256 of node:crypto) and the authenticator of OIDC tokens
-- are arguments. The readings of the clock during one search through the keys are one reading.
pub mod Grounds
mod Tests
use Prim.Native.Char.{code}
use Prim.Native.String
use loomctl.Base.{
  ℕ, ◌+◌, Bool, true, false, not, ◌&&◌, ◌||◌, String, Option, none, some, List, [], ◌∷◌, ◌++◌, ◌==◌,
  ltb, leb, eqb, if◌then◌else◌, Result, ok, err, unauthorized, forbidden, find,
}
use loomctl.Base.Directory.{lookup}
use loomctl.Base.Texts.{is_space}
use loomctl.Storage.Contracts.{Timestamp}

pub data TenantRole : Type 0 where
  admin developer viewer : TenantRole

pub record TenantApiKey : Type 0 where
  pub id : Option String
  pub token : Option String
  pub token_hash : Option String
  pub actor : String
  pub role : TenantRole
  pub model_key_env : Option String
  pub created_at : Option Timestamp
  pub not_before : Option Timestamp
  pub expires_at : Option Timestamp
  pub rotated_from_id : Option String

pub record TenantAccess : Type 0 where
  pub actor : String
  pub role : TenantRole
  pub model_key_env : Option String

pub record OidcAccess : Type 0 where
  pub tenant : String
  pub actor : String
  pub role : TenantRole
  pub subject : String

-- A text that is there and is not empty.
abbrev pub present : Option String → Bool
present none = false
present (some s) = not (s == "")

unfoldable pub safe_equal_string : Option String → Option String → Bool
safe_equal_string (some left) (some right) = left == right
safe_equal_string (some left) none = false
safe_equal_string none right = false

-- A start that is set has come, and is a date.
abbrev pub has_begun : Option Timestamp → ℕ → Bool
has_begun none now = true
has_begun (some none) now = false
has_begun (some (some ms)) now = leb ms now

-- An end that is set has not come, and is a date.
abbrev pub has_not_ended : Option Timestamp → ℕ → Bool
has_not_ended none now = true
has_not_ended (some none) now = false
has_not_ended (some (some ms)) now = ltb now ms

unfoldable pub tenant_api_key_is_active : TenantApiKey → ℕ → Bool
tenant_api_key_is_active key now = has_begun key.not_before now && has_not_ended key.expires_at now

unfoldable pub tenant_role_rank : TenantRole → ℕ
tenant_role_rank viewer = 0
tenant_role_rank developer = 1
tenant_role_rank admin = 2

unfoldable pub require_tenant_role : TenantAccess → TenantRole → Result (Option TenantAccess)
unfolding tenant_role_rank
require_tenant_role access required =
    if ltb (tenant_role_rank access.role) (tenant_role_rank required)
    then err forbidden
    else ok (some access)

-- A header: missing, or its first value and the others.
unfoldable pub header_value : List String → Option String
header_value [] = none
header_value (value ∷ values) = some value

-- `^Bearer\s+` without regard to case: what follows the word.
abbrev same_letter : ℕ → ℕ → Bool
same_letter lower c = eqb c lower || eqb (c + 32) lower

pub after_word : String → String → Option String
after_word String.[] s = some s
after_word (String.◌∷◌ w word) String.[] = none
after_word (String.◌∷◌ w word) (String.◌∷◌ c s) =
    if same_letter (code w) (code c) then after_word word s else none

-- The rest behind the spaces; where nothing is behind them, the last of several.
pub behind_spaces : ℕ → String → Option String
behind_spaces n String.[] = if ltb n 2 then none else some " "
behind_spaces n (String.◌∷◌ c s) =
    let more = behind_spaces (n + 1) s in
    if is_space (code c) then more else if ltb n 1 then none else some (String.◌∷◌ c s)

unfoldable pub bearer_token : List String → Option String
unfolding header_value after_word behind_spaces
bearer_token values = elim (header_value values) [
  | none ↦ none
  | some header ↦ elim (after_word "bearer" header) [
    | none ↦ none
    | some rest ↦ behind_spaces 0 rest
  ]
]

-- The credentials that a request carries: its two headers, and the `token` of the query of a stream.
pub record Credentials : Type 0 where
  pub authorization : List String
  pub tenant_token : List String
  pub is_stream : Bool
  pub query_token : Option String

abbrev pub or_else : Option String → Option String → Option String
or_else none other = other
or_else (some value) other = some value

unfoldable pub header_credential : Credentials → Option String
unfolding header_value bearer_token
header_credential req = or_else (bearer_token req.authorization) (header_value req.tenant_token)

unfoldable pub stream_query_token : Credentials → Option String
stream_query_token req = if req.is_stream then req.query_token else none

unfoldable pub provided_credential : Credentials → Option String
unfolding header_credential stream_query_token
provided_credential req = or_else (header_credential req) (stream_query_token req)

-- What the operator configured: `tenantTokens`, `tenantApiKeys` and the authenticator.
pub record AuthOptions : Type 0 where
  pub tenant_tokens : List (String × String)
  pub tenant_api_keys : List (String × List TenantApiKey)
  pub oidc : Option (String → String → Result OidcAccess)

abbrev pub is_nonempty {ℓ} : {A : Type ℓ} → List A → Bool
is_nonempty [] = false
is_nonempty (x ∷ xs) = true

abbrev pub is_some {ℓ} : {A : Type ℓ} → Option A → Bool
is_some none = false
is_some (some a) = true

unfoldable pub configured_keys : AuthOptions → String → List TenantApiKey
configured_keys options tenant = elim (lookup tenant options.tenant_api_keys) [
  | none ↦ []
  | some keys ↦ keys
]

unfoldable pub has_global_auth : AuthOptions → Bool
has_global_auth options =
    is_nonempty options.tenant_tokens || is_nonempty options.tenant_api_keys || is_some options.oidc

-- The steps of `requireTenantAccess` behind its first two tests, from the last to the first.
unfoldable pub last_test : Option String → Option String → Result (Option TenantAccess)
last_test provided expected =
    if not (present provided) || not (safe_equal_string provided expected)
    then err unauthorized
    else ok none

-- What the authenticator answers: any error of it is one answer.
unfoldable pub vouched : Result OidcAccess → TenantRole → Result (Option TenantAccess)
vouched (err e) required = err unauthorized
vouched (ok identity) required =
    require_tenant_role
      (record { actor = identity.actor; role = identity.role; model_key_env = none }) required

-- `if (oidc && headerCredential)`, and `final` where not.
unfoldable pub oidc_test :
    Option (String → String → Result OidcAccess)
    → Option String
    → String
    → TenantRole
    → Result (Option TenantAccess)
    → Result (Option TenantAccess)
oidc_test none credential tenant required final = final
oidc_test (some authenticate) none tenant required final = final
oidc_test (some authenticate) (some credential) tenant required final =
    if credential == "" then final else vouched (authenticate credential tenant) required

unfoldable pub by_oidc :
    AuthOptions → Credentials → String → TenantRole → Result (Option TenantAccess)
by_oidc options req tenant required =
    oidc_test options.oidc (header_credential req) tenant required
      (last_test (provided_credential req) (lookup tenant options.tenant_tokens))

unfoldable pub by_token :
    AuthOptions → Credentials → String → TenantRole → Result (Option TenantAccess)
by_token options req tenant required =
    let expected = lookup tenant options.tenant_tokens in
    if present expected && safe_equal_string (provided_credential req) expected
    then require_tenant_role (record { actor = "legacy-token"; role = admin; model_key_env = none })
        required
    else by_oidc options req tenant required

-- `if (apiKey)`, and `rest` where not.
unfoldable pub key_test :
    Option TenantApiKey → TenantRole → Result (Option TenantAccess) → Result (Option TenantAccess)
key_test none required rest = rest
key_test (some key) required rest =
    require_tenant_role
      (record { actor = key.actor; role = key.role; model_key_env = key.model_key_env }) required

-- SHA-256 of a text, as lower-case hexadecimal digits.
module _ (digest : String → String) where
  unfoldable pub hash_tenant_api_token : String → String
  hash_tenant_api_token token = String.◌++◌ "sha256:" (digest token)

  unfoldable pub tenant_api_key_matches : TenantApiKey → Option String → ℕ → Bool
  unfolding safe_equal_string hash_tenant_api_token
  tenant_api_key_matches key provided now =
      present provided
      && tenant_api_key_is_active key now
      && ((present key.token && safe_equal_string provided key.token) || elim provided [
        | none ↦ false
        | some token ↦
            present key.token_hash
            && safe_equal_string (some (hash_tenant_api_token token)) key.token_hash
      ])

  unfoldable pub by_key :
      AuthOptions
      → List TenantApiKey
      → Credentials
      → String
      → TenantRole
      → ℕ
      → Result (Option TenantAccess)
  by_key options keys req tenant required now =
      key_test (find (λ key. tenant_api_key_matches key (provided_credential req) now) keys)
        required (by_token options req tenant required)

  -- `none` is the answer `undefined`: a server without any authentication lets everyone in.
  unfoldable pub require_tenant_access :
      AuthOptions
      → List TenantApiKey
      → Credentials
      → String
      → TenantRole
      → ℕ
      → Result (Option TenantAccess)
  require_tenant_access options policy_keys req tenant required now =
      let keys = configured_keys options tenant ++ policy_keys in
      if not (has_global_auth options) && not (is_nonempty policy_keys)
      then ok none
      else if not (present (lookup tenant options.tenant_tokens))
          && not (is_nonempty keys)
          && not (is_some options.oidc)
      then err unauthorized
      else by_key options keys req tenant required now
