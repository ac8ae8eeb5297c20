-- ===== src/Server/ApiKeys/Answers.antt =====
-- src/harness/server-api-keys.ts and src/harness/server-access.ts: what a key answers to as time passes, and
-- which key of a list is found.
use package.text.Mathlib.TextLemmas.{append-eq-nil_iff}
use loomctl.Base.{
  ℕ, ◌≤◌, All, ◌||◌, false, ◌≡◌, refl, ap, subst, inl, inr, Bool, true, false, ◌&&◌, String, Option,
  none, some, List, [], ◌∷◌, ◌++◌, ◌==◌, eq_refl, eq_iff, arith, leb, Bool-cases, ok, check,
  check-eq-ok, invalid, >>=-eq-ok, >>-eq-ok, ok-injective, any, find,
}
use loomctl.Base.Json.{Value, undefined, null, bool, number, text, array, object}
use loomctl.Base.Texts.{units}
use loomctl.Storage.Contracts.{Timestamp}
use loomctl.Server.Access.{
  TenantApiKey, TenantAccess, is_nonempty, present, has_begun, has_not_ended, safe_equal_string,
  tenant_api_key_is_active, tenant_api_key_matches, hash_tenant_api_token,
}
use loomctl.Server.ApiKeys.Fields.{
  Platform, Generated, ApiKeyCreateBody, chosen_token, new_api_token, api_token,
}
use loomctl.Server.ApiKeys.Made.{IsNew}

long_enough : (token : String) → leb 24 (units token) ≡ true → present (some token) ≡ true
unfolding units
long_enough token h = elim (Bool-cases (token == "")) [
  | inl empty ↦ absurd (ground (arith, h, ap units ((eq_iff token "").0 empty)))
  | inr full ↦ rw full refl
]

new_api_token-present :
    (value : Value) (token : String) → new_api_token value ≡ ok token → present (some token) ≡ true
unfolding new_api_token
new_api_token-present value token h =
    let (t, ht, h1) = >>=-eq-ok (api_token value) _ h in
    let (hc, h2) = >>-eq-ok (check (leb 24 (units t)) invalid) _ h1 in
    subst (λ s. present (some s) ≡ true) (ok-injective h2)
      (long_enough t (check-eq-ok _ invalid hc))

-- A token that the server makes up is not empty, and neither is one that a client chose.
chosen_token-present :
    (value : Value) (generated token : String)
    → present (some generated) ≡ true
    → chosen_token value generated ≡ ok token
    → present (some token) ≡ true
unfolding chosen_token
chosen_token-present undefined generated token g h =
    subst (λ s. present (some s) ≡ true) (ok-injective h) g
chosen_token-present null generated token g h = new_api_token-present null token h
chosen_token-present (bool b) generated token g h = new_api_token-present (bool b) token h
chosen_token-present (number n) generated token g h = new_api_token-present (number n) token h
chosen_token-present (text s) generated token g h = new_api_token-present (text s) token h
chosen_token-present (array xs) generated token g h = new_api_token-present (array xs) token h
chosen_token-present (object fs) generated token g h = new_api_token-present (object fs) token h

hash_present :
    (digest : String → String) (token : String)
    → present (some (hash_tenant_api_token digest token)) ≡ true
unfolding hash_tenant_api_token
hash_present digest token = elim (Bool-cases (hash_tenant_api_token digest token == "")) [
  | inl empty ↦ absurd (
      ground (
        arith,
        eq_iff "sha256:" "",
        ((append-eq-nil_iff).0 ((eq_iff (hash_tenant_api_token digest token) "").0 empty)).0,
      ))
  | inr full ↦ rw full refl
]

and_true : (b : Bool) → b && true ≡ b
and_true true = refl
and_true false = refl

pub and_assoc : (a b c : Bool) → (a && (b && c)) ≡ ((a && b) && c)
and_assoc true b c = refl
and_assoc false b c = refl

pub second_true : (a b : Bool) → (a && b) ≡ true → b ≡ true
second_true true b h = h
second_true false b h = cc

first_false : (a b : Bool) → (a || b) ≡ false → a ≡ false
first_false true b h = cc
first_false false b h = refl

second_false : (a b : Bool) → (a || b) ≡ false → b ≡ false
second_false true b h = cc
second_false false b h = h

pub head_of {ℓ} : {A : Type ℓ} {a b : A} {xs bs : List A} → a ∷ xs ≡ b ∷ bs → a ≡ b
head_of e = cc

-- A new key answers to its token until it ends.
pub IsNew-matches :
    (platform : Platform) (now : ℕ) (made : Generated) (from : Option String)
    (body : ApiKeyCreateBody)
    → (key : TenantApiKey) (token : String) (t : ℕ) → present (some made.token) ≡ true
    → IsNew platform now made from body key token
    → tenant_api_key_matches platform.digest key (some token) t ≡ has_not_ended key.expires_at t
unfolding tenant_api_key_matches tenant_api_key_is_active safe_equal_string
IsNew-matches platform now made from body key token t g n =
    let full = chosen_token-present body.token made.token token g n.chosen in
    let hashed = hash_present platform.digest token in
    rw
      (
        n.hashed,
        n.begun,
        n.no_token,
        full,
        hashed,
        eq_refl (hash_tenant_api_token platform.digest token),
      )
      (and_true (has_not_ended key.expires_at t))

pub find-last :
    (p : TenantApiKey → Bool) (first second : List TenantApiKey) (key : TenantApiKey)
    → any p (first ++ second) ≡ false
    → p key ≡ true
    → find p (first ++ (second ++ key ∷ [])) ≡ some key
find-last p [] [] key h k = rw k
find-last p [] (other ∷ second) key h k = ground (arith, h, k, find-last p [] second key)
find-last p (other ∷ first) second key h k = ground (arith, h, k, find-last p first second key)

pub nonempty-last :
    (first second : List TenantApiKey) (key : TenantApiKey)
    → is_nonempty (first ++ (second ++ key ∷ [])) ≡ true
nonempty-last [] [] key = refl
nonempty-last [] (other ∷ second) key = refl
nonempty-last (other ∷ first) second key = refl

pub tail_of {ℓ} : {A : Type ℓ} {a b : A} {xs bs : List A} → a ∷ xs ≡ b ∷ bs → xs ≡ bs
tail_of e = cc

pub append_assoc : (xs ys zs : List TenantApiKey) → (xs ++ ys) ++ zs ≡ xs ++ (ys ++ zs)
append_assoc [] ys zs = refl
append_assoc (x ∷ xs) ys zs = ap (λ ks. x ∷ ks) (append_assoc xs ys zs)

pub some_injective {ℓ} : {A : Type ℓ} {a b : A} → some a ≡ some b → a ≡ b
some_injective e = cc

abbrev pub access_of : TenantApiKey → TenantAccess
access_of key = record { actor = key.actor; role = key.role; model_key_env = key.model_key_env }

had_not_ended :
    (e : Option Timestamp) (c t : ℕ) → c ≤ t → has_not_ended e t ≡ true → has_not_ended e c ≡ true
had_not_ended none c t le h = refl
had_not_ended (some none) c t le h = h
had_not_ended (some (some ms)) c t le h = ground arith

still_false :
    (p b b' n n' x : Bool)
    → b ≡ true
    → (n' ≡ true → n ≡ true)
    → (p && (b && n) && x) ≡ false
    → (p && (b' && n') && x) ≡ false
still_false p b b' n n' x begun live h = ground (arith, begun, live)

-- Keys that have all begun and that no credential answers to do not come to answer to it.
pub still_unknown :
    (digest : String → String) (provided : Option String) (c t : ℕ)
    → c ≤ t
    → (keys : List TenantApiKey) → All (λ key. has_begun key.not_before c ≡ true) keys
    → any (λ key. tenant_api_key_matches digest key provided c) keys ≡ false
    → any (λ key. tenant_api_key_matches digest key provided t) keys ≡ false
unfolding tenant_api_key_matches tenant_api_key_is_active
still_unknown digest provided c t le [] begun h = refl
still_unknown digest provided c t le (key ∷ keys) (one, begun) h =
    let rest = still_unknown digest provided c t le keys begun (second_false _ _ h) in
    let first =
      still_false (present provided) (has_begun key.not_before c) (has_begun key.not_before t)
        (has_not_ended key.expires_at c) (has_not_ended key.expires_at t) _ one
        (had_not_ended key.expires_at c t le) (first_false _ _ h) in
    rw (first, rest) refl
