-- ===== src/Access/Tests.antt =====
-- Two requests for one resource with different attributes.
use hire_ai.Prelude.{ℕ, true, List, [], ◌∷◌}
use hire_ai.Leads.{Text}
use hire_ai.Access.{number, Entries, no_entry, entry}
use hire_ai.Events.Serializer.{pos}
use hire_ai.Access.Abac.{AbacOperator, eq, gt, allow, deny, AbacRule, AbacPolicy}
use hire_ai.Access.Engine.{jwt, AccessRequest}
use hire_ai.Access.Explained.{CacheOp, ask, invalidate_op, AllJustified}
use hire_ai.Access.Answers.{answers-AllJustified}

-- "a" and "b"
abbrev attr_a : Text
attr_a = 97 ∷ []

abbrev attrs : Entries
attrs = entry attr_a (number (pos 5)) no_entry

abbrev rule : AbacOperator → ℕ → AbacRule
rule op n = record { attribute = attr_a; operator = op; value = number (pos n) }

abbrev policies : List AbacPolicy
policies =
    record { rules = rule gt 3 ∷ []; effect = allow }
    ∷ record { rules = rule eq 5 ∷ []; effect = deny }
    ∷ []

abbrev digits : ℕ → Text
digits n = n ∷ []

abbrev request : AccessRequest
request = record {
  ctx = record {
    user_id = 1;
    organization_id = 2;
    permissions = (76 ∷ 58 ∷ 114 ∷ []) ∷ [];
    auth_method = jwt;
  };
  resource_type = 76 ∷ [];
  action = 114 ∷ [];
  resource_attrs = attrs;
  abac_policies = [];
  tenant_allowed = true;
}

abbrev ops : List CacheOp
ops =
    ask 10 request
    ∷ ask 40 (record request { abac_policies = policies })
    ∷ invalidate_op (1 ∷ [])
    ∷ ask 200 request
    ∷ []

answers-AllJustified_example : AllJustified digits [] ops []
answers-AllJustified_example = answers-AllJustified digits ops
