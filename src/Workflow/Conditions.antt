-- ===== src/Workflow/Conditions.antt =====
-- The loop of services/workflow_condition_engine.py. Whether one condition holds, after the casts and
-- the comparison, is a parameter.
use hire_ai.Prelude.{
  Bool, true, false, ◌&&◌, ◌||◌, none, some, List, [], ◌∷◌, sort_by, leb, if◌then◌else◌,
}
use hire_ai.Leads.{Text}
use hire_ai.Leads.Repository.{same_text}
use hire_ai.Access.{text_below}
use hire_ai.Workflow.{WorkflowCondition}

-- `c.group_id or ""`
abbrev pub group_of : WorkflowCondition → Text
group_of c = elim c.group_id [ none ↦ [] | some g ↦ g ]

-- `key=lambda c: (c.group_id or "", c.order)`
abbrev pub comes_before : WorkflowCondition → WorkflowCondition → Bool
comes_before c d =
    text_below (group_of c) (group_of d)
    || (same_text (group_of c) (group_of d) && leb c.order d.order)

module _ (holds : WorkflowCondition → Bool) where
  -- The loop, which stops at the first condition that does not hold, and its trace.
  unfoldable pub check_all : List WorkflowCondition → Bool × List (WorkflowCondition × Bool)
  check_all [] = (true, [])
  check_all (c ∷ cs) =
      let rest = check_all cs in
      if holds c then (rest.0, (c, true) ∷ rest.1) else (false, (c, false) ∷ [])

  -- `WorkflowConditionEngine.evaluate`
  unfoldable pub evaluate_conditions :
      List WorkflowCondition → Bool × List (WorkflowCondition × Bool)
  evaluate_conditions cs = check_all (sort_by comes_before cs)
