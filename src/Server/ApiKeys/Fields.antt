-- ===== src/Server/ApiKeys/Fields.antt =====
-- src/harness/server-api-keys.ts: the fields of a request's body, and the key that they make.
use Prim.Native.Char.{code}
use loomctl.Base.{
  ℕ, Bool, true, false, not, ◌&&◌, ◌||◌, String, Option, none, some, ◌==◌, ltb, leb, eqb,
  if◌then◌else◌, Result, ok, err, check, ◌>>=◌, ◌>>◌, invalid,
}
use loomctl.Base.Json.{Value, undefined, null, text, object, Fields, end, field}
use loomctl.Base.Texts.{trim, is_blank, units, any_code}
use loomctl.Server.Access.{
  TenantRole, admin, developer, viewer, TenantApiKey, hash_tenant_api_token,
}

pub record Platform : Type 0 where
  pub digest : String → String
  pub parse_date : String → Option ℕ
  pub number_of : Value → Option ℕ

-- `body.name`
unfoldable pub member : String → Fields → Value
member name end = undefined
member name (field key value rest) = if key == name then value else member name rest

unfoldable pub request_object : Value → Result Fields
request_object (object fields) = ok fields
request_object _ = err invalid

unfoldable pub required_string : Value → Result String
required_string (text s) = if is_blank s then err invalid else ok s
required_string _ = err invalid

-- `/[\0\r\n]/`
abbrev breaks_line : ℕ → Bool
breaks_line c = eqb c 0 || eqb c 13 || eqb c 10

-- A trimmed text of one line and at most so many code units.
unfoldable pub single_line : ℕ → Value → Result String
unfolding required_string
single_line limit value = do
  given ← required_string value
  let line = trim given
  check (leb (units line) limit && not (any_code breaks_line line)) invalid
  ok line

unfoldable pub api_key_actor : Value → Result String
unfolding single_line
api_key_actor value = single_line 120 value

unfoldable pub api_key_role : Value → Result TenantRole
api_key_role (text s) =
    if s == "admin"
    then ok admin
    else if s == "developer"
    then ok developer
    else if s == "viewer"
    then ok viewer
    else err invalid
api_key_role _ = err invalid

unfoldable pub api_token : Value → Result String
unfolding single_line
api_token value = single_line 512 value

abbrev min_api_token_length : ℕ
min_api_token_length = 24

unfoldable pub new_api_token : Value → Result String
unfolding api_token
new_api_token value = do
  token ← api_token value
  check (leb min_api_token_length (units token)) invalid
  ok token

abbrev is_alphanumeric : ℕ → Bool
is_alphanumeric c =
    (leb b'A' c && leb c b'Z') || (leb b'a' c && leb c b'z') || (leb b'0' c && leb c b'9')

abbrev is_id_char : ℕ → Bool
is_id_char c = is_alphanumeric c || eqb c b'_' || eqb c b'.' || eqb c b'-'

-- The first character passes one test, and the others another.
abbrev starts_with : (ℕ → Bool) → (ℕ → Bool) → String → Bool
starts_with first rest String.[] = false
starts_with first rest (String.◌∷◌ c s) = first (code c) && not (any_code (λ d. not (rest d)) s)

unfoldable pub api_key_id : Value → Result String
unfolding required_string
api_key_id value = do
  given ← required_string value
  let id = trim given
  check (starts_with is_alphanumeric is_id_char id && leb (units id) 128) invalid
  ok id

unfoldable pub environment_name : Value → Result String
unfolding required_string
environment_name value = do
  name ← required_string value
  check
      (starts_with (λ c. (is_alphanumeric c && not (leb b'0' c && leb c b'9')) || eqb c b'_')
        (λ c. is_alphanumeric c || eqb c b'_') name)
      invalid
  ok name

unfoldable pub optional_client_id : Value → Result (Option String)
unfolding single_line
optional_client_id undefined = ok none
optional_client_id null = ok none
optional_client_id (text s) =
    if s == "" then ok none else (do line ← single_line 120 (text s); ok (some line))
optional_client_id _ = err invalid

-- `value === undefined ? undefined : read(value)`
unfoldable pub optional {ℓ} : {A : Type ℓ} → (Value → Result A) → Value → Result (Option A)
optional read undefined = ok none
optional read value = do a ← read value; ok (some a)

unfoldable pub api_key_timestamp : (String → Option ℕ) → Value → Result ℕ
unfolding required_string
api_key_timestamp parse_date value = do
  given ← required_string value
  elim (parse_date (trim given)) [ none ↦ err invalid | some ms ↦ ok ms ]

unfoldable pub api_key_overlap_seconds : (Value → Option ℕ) → Value → Result ℕ
api_key_overlap_seconds number_of undefined = ok 3600
api_key_overlap_seconds number_of value = elim (number_of value) [
  | none ↦ err invalid
  | some seconds ↦ if leb seconds 604800 then ok seconds else err invalid
]

pub record ApiKeyCreateBody : Type 0 where
  pub actor : Value
  pub role : Value
  pub model_key_env : Value
  pub token : Value
  pub expires_at : Value

-- What the server makes up for a request.
pub record Generated : Type 0 where
  pub token : String
  pub key_id : String
  pub previous_id : String

abbrev pub to_stamp : Option ℕ → Option (Option ℕ)
to_stamp none = none
to_stamp (some ms) = some (some ms)

-- The end of a new key lies in the future.
abbrev pub in_future : ℕ → Option ℕ → Bool
in_future now none = true
in_future now (some ms) = ltb now ms

unfoldable pub chosen_token : Value → String → Result String
unfolding new_api_token
chosen_token undefined generated = ok generated
chosen_token value generated = new_api_token value

unfoldable pub new_api_key :
    Platform
    → ℕ
    → Option String
    → Generated
    → String
    → String
    → TenantRole
    → Option String
    → Option ℕ
    → TenantApiKey
new_api_key platform now rotated_from_id made token actor role model_key_env expires_at = record {
  id = some made.key_id;
  token = none;
  token_hash = some (hash_tenant_api_token platform.digest token);
  actor = actor;
  role = role;
  model_key_env = model_key_env;
  created_at = some (some now);
  not_before = none;
  expires_at = to_stamp expires_at;
  rotated_from_id = rotated_from_id;
}

unfoldable pub api_key_from_create_body :
    Platform → ApiKeyCreateBody → ℕ → Option String → Generated → Result (TenantApiKey × String)
api_key_from_create_body platform body now rotated_from_id made = do
  token ← chosen_token body.token made.token
  expires_at ← optional (api_key_timestamp platform.parse_date) body.expires_at
  check (in_future now expires_at) invalid
  actor ← api_key_actor body.actor
  role ← api_key_role body.role
  model_key_env ← optional environment_name body.model_key_env
  ok (
    new_api_key platform now rotated_from_id made token actor role model_key_env expires_at,
    token,
  )
