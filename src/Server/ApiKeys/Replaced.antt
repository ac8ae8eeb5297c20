-- ===== src/Server/ApiKeys/Replaced.antt =====
-- src/harness/server-api-keys.ts: the key that a rotation replaces, and the list that it stands in.
use loomctl.Base.{
  ℕ, false, ◌⊎◌, eq_iff, ◌≡◌, refl, sym, ap, ◌∙◌, subst, inl, inr, Bool, true, false, ◌&&◌, String,
  Option, none, some, List, [], ◌∷◌, ◌++◌, arith, ltb, Bool-cases, keep,
}
use loomctl.Storage.Contracts.{Timestamp}
use loomctl.Server.Access.{
  TenantRole, admin, developer, viewer, present, TenantApiKey, has_begun, has_not_ended,
  tenant_api_key_is_active, tenant_api_key_matches,
}
use loomctl.Server.ApiKeys.Plans.{
  Selector, same_text, same_role, role_fits, selects, expiring_key, earlier, replace_candidate,
}
use loomctl.Server.ApiKeys.Answers.{and_assoc, second_true, head_of, tail_of}

pub found_passes :
    (p : TenantApiKey → Bool) (keys : List TenantApiKey) (key : TenantApiKey)
    → keep p keys ≡ key ∷ []
    → p key ≡ true
found_passes p [] key h = cc
found_passes p (other ∷ keys) key h = elim (Bool-cases (p other)) [
  | inl passes ↦ subst (λ k. p k ≡ true) (head_of (rw passes at h)) passes
  | inr fails ↦ found_passes p keys key (rw fails at h)
]

pub both_true : (a b : Bool) → (a && b) ≡ true → a ≡ true
both_true true b h = refl
both_true false b h = cc

-- An end that is moved forward is the earlier of the two.
ends-earlier :
    (e : Option Timestamp) (end t seen : ℕ)
    → has_not_ended e seen ≡ true
    → has_not_ended (some (some (earlier end e))) t ≡ (has_not_ended e t && ltb t end)
ends-earlier none end t seen h = refl
ends-earlier (some none) end t seen h = cc
ends-earlier (some (some ms)) end t seen h = ground arith

expiring-active :
    (key : TenantApiKey) (id : String) (end t seen : ℕ)
    → tenant_api_key_is_active key seen ≡ true
    → tenant_api_key_is_active (expiring_key key id end) t
      ≡ (tenant_api_key_is_active key t && ltb t end)
unfolding tenant_api_key_is_active
expiring-active key id end t seen h =
    ap (λ b. has_begun key.not_before t && b)
      (ends-earlier key.expires_at end t seen (second_true _ _ h))
    ∙ and_assoc (has_begun key.not_before t) _ _

-- The replaced key answers to what it answered to, until the overlap is over.
pub expiring-matches :
    (digest : String → String) (key : TenantApiKey) (id : String) (end seen : ℕ)
    → tenant_api_key_is_active key seen ≡ true
    → (provided : Option String) (t : ℕ)
    → tenant_api_key_matches digest (expiring_key key id end) provided t
      ≡ (tenant_api_key_matches digest key provided t && ltb t end)
unfolding tenant_api_key_matches
expiring-matches digest key id end seen h provided t =
    let active = expiring-active key id end t seen h in ground (arith, active)

none_replaced :
    (p : TenantApiKey → Bool) (replacement : TenantApiKey) (keys : List TenantApiKey)
    → keep p keys ≡ []
    → replace_candidate p replacement keys ≡ keys
none_replaced p replacement [] h = refl
none_replaced p replacement (key ∷ keys) h = elim (Bool-cases (p key)) [
  | inl passes ↦ absurd (cc (rw passes at h))
  | inr fails ↦ rw fails (ap (λ ks. key ∷ ks) (none_replaced p replacement keys (rw fails at h)))
]

-- The one candidate is replaced where it stands, and the other keys stay.
pub one_replaced :
    (p : TenantApiKey → Bool) (replacement current : TenantApiKey) (keys : List TenantApiKey)
    → keep p keys ≡ current ∷ []
    → (front back : List TenantApiKey) × (keys ≡ front ++ current ∷ back)
      × (replace_candidate p replacement keys ≡ front ++ replacement ∷ back)
one_replaced p replacement current [] h = cc
one_replaced p replacement current (key ∷ keys) h = elim (Bool-cases (p key)) [
  | inl passes ↦
      let found = rw passes at h in
      (
        [],
        keys,
        ap (λ k. k ∷ keys) (head_of found),
        rw passes (ap (λ ks. replacement ∷ ks) (none_replaced p replacement keys (tail_of found))),
      )
  | inr fails ↦
      let (front, back, cut, replaced) = one_replaced p replacement current keys (rw fails at h) in
      (key ∷ front, back, ap (λ ks. key ∷ ks) cut, rw fails (ap (λ ks. key ∷ ks) replaced))
]

-- A selector names a key by its id, or, where it has none, by its actor and, if it has one, its role.
pub IsNamed : Selector → TenantApiKey → Type 0
IsNamed selector key =
    (present selector.key_id ≡ true × key.id ≡ selector.key_id)
    ⊎ (present selector.key_id ≡ false
        × some key.actor ≡ selector.actor
        × (selector.role ≡ none ⊎ selector.role ≡ some key.role))

same_text-eq : (a b : Option String) → same_text a b ≡ true → a ≡ b
same_text-eq (some a) (some b) h = ap some ((eq_iff a b).0 h)
same_text-eq (some a) none h = cc
same_text-eq none (some b) h = cc
same_text-eq none none h = refl

same_role-eq : (a b : TenantRole) → same_role a b ≡ true → a ≡ b
same_role-eq admin admin h = refl
same_role-eq admin developer h = cc
same_role-eq admin viewer h = cc
same_role-eq developer admin h = cc
same_role-eq developer developer h = refl
same_role-eq developer viewer h = cc
same_role-eq viewer admin h = cc
same_role-eq viewer developer h = cc
same_role-eq viewer viewer h = refl

role_fits-eq :
    (wanted : Option TenantRole) (role : TenantRole)
    → role_fits wanted role ≡ true
    → wanted ≡ none ⊎ wanted ≡ some role
role_fits-eq none role h = inl refl
role_fits-eq (some wanted) role h = inr (ap some (sym (same_role-eq role wanted h)))

pub selects-IsNamed :
    (selector : Selector) (key : TenantApiKey) → selects selector key ≡ true → IsNamed selector key
unfolding selects IsNamed
selects-IsNamed selector key h = elim (Bool-cases (present selector.key_id)) [
  | inl by_id ↦ inl (by_id, same_text-eq key.id selector.key_id (rw by_id at h))
  | inr by_actor ↦
      let both = rw by_actor at h in
      inr (
        by_actor,
        same_text-eq (some key.actor) selector.actor (both_true _ _ both),
        role_fits-eq selector.role key.role (second_true _ _ both),
      )
]
