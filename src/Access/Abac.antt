-- ===== src/Access/Abac.antt =====
-- security/abac_engine.py.
use hire_ai.Prelude.{
  ℕ, Bool, true, false, not, ◌||◌, Option, none, some, List, [], ◌∷◌, ◌==◌, is_some, if◌then◌else◌,
}
use hire_ai.Leads.{Text}
use hire_ai.Leads.Contact.{starts_with}
use hire_ai.Access.{
  Value, null, text, array, dict, Values, end, item, Entries, lookup, same_value, below,
}

pub data AbacOperator : Type 0 where
  eq neq isin not_in has gt gte lt lte : AbacOperator

pub data AbacEffect : Type 0 where
  allow deny : AbacEffect

-- `ABACRule`
pub record AbacRule : Type 0 where
  pub attribute : Text
  pub operator : AbacOperator
  pub value : Value

-- `ABACPolicy`, less its name
pub record AbacPolicy : Type 0 where
  pub rules : List AbacRule
  pub effect : AbacEffect

-- `path.split(".")`
abbrev pub put_first : ℕ → List Text → List Text
put_first c [] = (c ∷ []) ∷ []
put_first c (part ∷ parts) = (c ∷ part) ∷ parts

abbrev pub split_dots : Text → List Text
split_dots [] = [] ∷ []
split_dots (c ∷ cs) = let rest = split_dots cs in if c == 46 then [] ∷ rest else put_first c rest

abbrev pub get : Text → Value → Value
get part (dict fs) = elim (lookup part fs) [ none ↦ null | some v ↦ v ]
get part _ = null

unfoldable pub walk : List Text → Value → Value
walk [] v = v
walk (part ∷ parts) v = walk parts (get part v)

-- `_get_nested`; once a value is no dictionary the answer is None, as `get` has it.
unfoldable pub get_nested : Entries → Text → Value
get_nested attrs path = walk (split_dots path) (dict attrs)

-- `in` on a list
unfoldable pub is_member : Value → Values → Bool
is_member v end = false
is_member v (item x xs) = same_value x v || is_member v xs

-- `actual in (expected if isinstance(…) else [expected])`
unfoldable pub in_expected : (actual expected : Value) → Bool
in_expected actual (array xs) = is_member actual xs
in_expected actual expected = same_value expected actual

-- A part of a text.
unfoldable pub is_within : (part whole : Text) → Bool
is_within part [] = starts_with part []
is_within part (c ∷ cs) = starts_with part (c ∷ cs) || is_within part cs

-- `expected in actual`; none for the TypeError.
unfoldable pub contains_value : (expected actual : Value) → Option Bool
contains_value (text part) (text whole) = some (is_within part whole)
contains_value expected (array xs) = some (is_member expected xs)
contains_value (text key) (dict fs) = some (is_some (lookup key fs))
contains_value (array xs) (dict fs) = none
contains_value (dict gs) (dict fs) = none
contains_value expected (dict fs) = some false
contains_value expected actual = none

abbrev pub negated : Option Bool → Option Bool
negated none = none
negated (some b) = some (not b)

-- `… if actual is not None else False`
abbrev pub unless_null : Value → Option Bool → Option Bool
unless_null null r = some false
unless_null actual r = r

-- `_evaluate_rule`
unfoldable pub evaluate_operator : AbacOperator → (actual expected : Value) → Option Bool
evaluate_operator eq actual expected = some (same_value actual expected)
evaluate_operator neq actual expected = some (not (same_value actual expected))
evaluate_operator isin actual expected = some (in_expected actual expected)
evaluate_operator not_in actual expected = some (not (in_expected actual expected))
evaluate_operator has actual expected = unless_null actual (contains_value expected actual)
evaluate_operator gt actual expected = unless_null actual (below expected actual)
evaluate_operator gte actual expected = unless_null actual (negated (below actual expected))
evaluate_operator lt actual expected = unless_null actual (below actual expected)
evaluate_operator lte actual expected = unless_null actual (negated (below expected actual))

unfoldable pub evaluate_rule : AbacRule → Entries → Option Bool
evaluate_rule rule attrs =
    evaluate_operator rule.operator (get_nested attrs rule.attribute) rule.value

-- `all(…)`, which stops at the first False.
unfoldable pub all_rules : List AbacRule → Entries → Option Bool
all_rules [] attrs = some true
all_rules (rule ∷ rules) attrs =
    let rest = all_rules rules attrs in
    elim (evaluate_rule rule attrs) [
      | none ↦ none
      | some matched ↦ if matched then rest else some false
    ]

abbrev pub is_allow : AbacEffect → Bool
is_allow allow = true
is_allow deny = false

-- `ABACEngine.evaluate`
unfoldable pub evaluate : AbacPolicy → Entries → Option Bool
evaluate policy attrs = elim policy.rules [
  | [] ↦ some (is_allow policy.effect)
  | rule ∷ rules ↦ all_rules (rule ∷ rules) attrs
]

-- The loop of `evaluate_all`.
unfoldable pub evaluate_from :
    (allow_matched : Bool) → List AbacPolicy → Entries → Option AbacEffect
evaluate_from allow_matched [] attrs = some (if allow_matched then allow else deny)
evaluate_from allow_matched (policy ∷ policies) attrs = elim (evaluate policy attrs) [
  | none ↦ none
  | some matched ↦
      if matched
      then (if is_allow policy.effect then evaluate_from true policies attrs else some deny)
      else evaluate_from allow_matched policies attrs
]

-- `ABACEngine.evaluate_all`
unfoldable pub evaluate_all : List AbacPolicy → Entries → Option AbacEffect
evaluate_all policies attrs = evaluate_from false policies attrs
