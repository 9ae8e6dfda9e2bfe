-- ===== src/Access/Engine.antt =====
-- security/authorization_engine.py with `cache_key` of security_context.py. Instants are seconds of the
-- monotonic clock, which authorize reads once here and twice in the source, before and after the decision;
-- the text of a UUID is a parameter.
use hire_ai.Prelude.{
  ℕ, ◌+◌, Bool, true, false, not, ◌||◌, Option, none, some, List, [], ◌∷◌, ◌++◌, any, filter, ltb,
  if◌then◌else◌,
}
use hire_ai.Leads.{Text}
use hire_ai.Leads.Contact.{starts_with}
use hire_ai.Leads.Repository.{same_text}
use hire_ai.Access.{Entries}
use hire_ai.Access.Abac.{AbacEffect, allow, deny, AbacPolicy, evaluate_all}

pub data AuthMethod : Type 0 where
  jwt api_key oauth oidc saml : AuthMethod

-- `.value`
abbrev pub method_value : AuthMethod → Text
method_value jwt = 74 ∷ 87 ∷ 84 ∷ []
method_value api_key = 65 ∷ 80 ∷ 73 ∷ 95 ∷ 75 ∷ 69 ∷ 89 ∷ []
method_value oauth = 79 ∷ 65 ∷ 85 ∷ 84 ∷ 72 ∷ []
method_value oidc = 79 ∷ 73 ∷ 68 ∷ 67 ∷ []
method_value saml = 83 ∷ 65 ∷ 77 ∷ 76 ∷ []

-- What the engine reads of a `SecurityContext`.
pub record SecurityContext : Type 0 where
  pub user_id : ℕ
  pub organization_id : ℕ
  pub permissions : List Text
  pub auth_method : AuthMethod

-- The arguments of `authorize`; an absent dictionary or list is an empty one.
pub record AccessRequest : Type 0 where
  pub ctx : SecurityContext
  pub resource_type : Text
  pub action : Text
  pub resource_attrs : Entries
  pub abac_policies : List AbacPolicy
  pub tenant_allowed : Bool

pub data Reason : Type 0 where
  lacks_permission : Text → Reason
  attributes_denied tenant_denied : Reason
  all_passed : Text → Reason

-- `AuthDecision`; the policy's name goes with the reason.
pub record AuthDecision : Type 0 where
  pub allowed : Bool
  pub reason : Reason
  pub cached : Bool

abbrev pub cache_ttl_seconds : ℕ
cache_ttl_seconds = 60

-- `_DecisionCache._store`
abbrev pub Cache : Type 0
Cache = List (Text × (AuthDecision × ℕ))

-- ':' and '|'
abbrev pub colon : ℕ
colon = 58

abbrev pub bar : ℕ
bar = 124

abbrev pub star : ℕ
star = 42

-- `SecurityContext.cache_key`
unfoldable pub cache_key : (uuid_text : ℕ → Text) → SecurityContext → Text
cache_key uuid_text ctx =
    uuid_text ctx.user_id
    ++ colon ∷ (uuid_text ctx.organization_id ++ colon ∷ method_value ctx.auth_method)

-- `_key`
unfoldable pub entry_key : (ctx_key resource_type action : Text) → Text
entry_key ctx_key resource_type action = ctx_key ++ bar ∷ (resource_type ++ bar ∷ action)

unfoldable pub find_entry : Text → Cache → Option (AuthDecision × ℕ)
find_entry k [] = none
find_entry k ((key, stored) ∷ rest) = if same_text key k then some stored else find_entry k rest

-- `del _store[k]`
unfoldable pub drop_entry : Text → Cache → Cache
drop_entry k [] = []
drop_entry k ((key, stored) ∷ rest) =
    if same_text key k then rest else (key, stored) ∷ drop_entry k rest

-- `_DecisionCache.get`
unfoldable pub get_cached : (now : ℕ) → Text → Cache → Option AuthDecision × Cache
get_cached now k cache = elim (find_entry k cache) [
  | none ↦ (none, cache)
  | some (decision, expires_at) ↦
      if ltb expires_at now then (none, drop_entry k cache) else (some decision, cache)
]

-- `_DecisionCache.set`
unfoldable pub set_cached : (now : ℕ) → Text → AuthDecision → Cache → Cache
set_cached now k decision [] = (k, (decision, now + cache_ttl_seconds)) ∷ []
set_cached now k decision ((key, stored) ∷ rest) =
    if same_text key k
    then (key, (decision, now + cache_ttl_seconds)) ∷ rest
    else (key, stored) ∷ set_cached now k decision rest

-- `_DecisionCache.invalidate`
unfoldable pub invalidate : (ctx_key : Text) → Cache → Cache
invalidate ctx_key cache = filter (λ e. not (starts_with (ctx_key ++ bar ∷ []) e.0)) cache

-- `_DecisionCache.clear`
abbrev pub clear : Cache → Cache
clear cache = []

abbrev pub permission_text : (resource_type action : Text) → Text
permission_text resource_type action = resource_type ++ colon ∷ action

-- Stage 1, RBAC.
unfoldable pub rbac_allowed : AccessRequest → Bool
rbac_allowed r =
    any (λ p. same_text p (permission_text r.resource_type r.action)) r.ctx.permissions
    || any (λ p. same_text p (r.resource_type ++ colon ∷ star ∷ [])) r.ctx.permissions

-- Stage 2, ABAC; without policies nothing is asked.
unfoldable pub abac_effect : AccessRequest → Option AbacEffect
abac_effect r = elim r.abac_policies [
  | [] ↦ some allow
  | policy ∷ policies ↦ evaluate_all (policy ∷ policies) r.resource_attrs
]

abbrev pub denied : Reason → AuthDecision
denied reason = record { allowed = false; reason = reason; cached = false }

-- The stages of `authorize`; none for the TypeError of a rule.
unfoldable pub decide : AccessRequest → Option AuthDecision
decide r =
    if rbac_allowed r
    then elim (abac_effect r) [
      | none ↦ none
      | some deny ↦ some (denied attributes_denied)
      | some allow ↦
          if r.tenant_allowed
          then some (record {
            allowed = true;
            reason = all_passed (permission_text r.resource_type r.action);
            cached = false;
          })
          else some (denied tenant_denied)
    ]
    else some (denied (lacks_permission (permission_text r.resource_type r.action)))

abbrev pub key_of : (uuid_text : ℕ → Text) → AccessRequest → Text
key_of uuid_text r = entry_key (cache_key uuid_text r.ctx) r.resource_type r.action

-- `authorize`
unfoldable pub authorize :
    (uuid_text : ℕ → Text) (now : ℕ) → AccessRequest → Cache → Option AuthDecision × Cache
authorize uuid_text now r cache =
    let k = key_of uuid_text r in
    let hit = get_cached now k cache in
    elim hit.0 [
      | some decision ↦ (some (record decision { cached = true }), hit.1)
      | none ↦ elim (decide r) [
        | none ↦ (none, hit.1)
        | some decision ↦ (some decision, set_cached now k decision hit.1)
      ]
    ]
