-- ===== src/Leads/Plan.antt =====
-- What `update_lead` of services/lead_service.py decides before it writes.
use hire_ai.Prelude.{ℕ, Bool, false, Option, none, some, List, [], ◌∷◌, ◌++◌, ◌==◌, if◌then◌else◌}
use hire_ai.Task.{RequestContext}
use hire_ai.Leads.{
  Text, LeadStatus, LeadActivityType, status_changed, assigned, Lead, uuid, status_value, LogFields,
  LeadDb, LeadUpdateRequest, same_status, valid_transitions,
}
use hire_ai.Leads.Contact.{normalize_phone, normalize_website}
use hire_ai.Leads.Repository.{same_option, email_exists, phone_exists}
use hire_ai.Leads.Update.{
  email_taken, phone_taken, invalid_transition, LeadResult, ok, err, uuid_or_null, LeadField,
  set_email, set_phone, set_website, set_status, set_assigned_to, simple_part,
}

abbrev pub Logs : Type 0
Logs = List (LeadActivityType × LogFields)

module _ (lower : Text → Text) (isdigit : ℕ → Bool) (ctx : RequestContext) where
  -- "Validate duplicate email (if updated)"
  unfoldable pub email_part : (lead : Lead) → Option Text → LeadDb → LeadResult (List LeadField)
  email_part lead none db = ok []
  email_part lead (some email) db =
      if same_option (some (lower email)) lead.email
      then ok []
      else if email_exists lower ctx (lower email) (some lead.id) db
      then err (email_taken (lower email))
      else ok (set_email (lower email) ∷ [])

  -- "Validate duplicate phone (if updated)"
  unfoldable pub phone_part : (lead : Lead) → Option Text → LeadDb → LeadResult (List LeadField)
  phone_part lead none db = ok []
  phone_part lead (some phone) db =
      let phone_norm = normalize_phone isdigit (some phone) in
      if same_option phone_norm lead.phone
      then ok []
      else if phone_exists ctx phone_norm (some lead.id) db
      then err (phone_taken phone_norm)
      else ok (set_phone phone_norm ∷ [])

-- "Validate status transitions"
unfoldable pub status_part : Lead → Option LeadStatus → LeadResult (List LeadField × Logs)
status_part lead none = ok ([], [])
status_part lead (some s) =
    if same_status s lead.status
    then ok ([], [])
    else if valid_transitions lead.status s
    then ok (
      set_status s ∷ [],
      (
        status_changed,
        ("old_status", status_value lead.status) ∷ ("new_status", status_value s) ∷ [],
      )
          ∷ [],
    )
    else err (invalid_transition lead.status s)

abbrev pub is_assignee : ℕ → Option ℕ → Bool
is_assignee a none = false
is_assignee a (some b) = a == b

-- "Validate assignee changes"
unfoldable pub assignee_part : Lead → Option ℕ → List LeadField × Logs
assignee_part lead none = ([], [])
assignee_part lead (some a) = if is_assignee a lead.assigned_to then ([], []) else (
  set_assigned_to a ∷ [],
  (assigned, ("old_assignee_id", uuid_or_null lead.assigned_to) ∷ ("new_assignee_id", uuid a) ∷ [])
      ∷ [],
)

-- "Normalize URL"
unfoldable pub website_part : Option Text → List LeadField
website_part none = []
website_part (some url) = set_website (normalize_website (some url)) ∷ []

-- The `updates` and `activities_to_log` of the method.
unfoldable pub plan_update :
    (lower : Text → Text) (isdigit : ℕ → Bool)
    → RequestContext
    → Lead
    → LeadUpdateRequest
    → LeadDb
    → LeadResult (List LeadField × Logs)
plan_update lower isdigit ctx lead request db =
    elim (email_part lower isdigit ctx lead request.email db) [
      | err e ↦ err e
      | ok emails ↦ elim (phone_part lower isdigit ctx lead request.phone db) [
        | err e ↦ err e
        | ok phones ↦ elim (status_part lead request.status) [
          | err e ↦ err e
          | ok (statuses, moved) ↦
              let assignee = assignee_part lead request.assigned_to in
              ok (
                emails
                    ++ (phones
                        ++ (statuses
                            ++ (assignee.0
                                ++ (website_part request.website ++ simple_part request)))),
                moved ++ assignee.1,
              )
        ]
      ]
    ]
