-- ===== src/Leads/Service.antt =====
-- services/lead_service.py, the methods. A method runs as one step: nothing is committed between its
-- reads and its writes. Generated keys and the clock are arguments.
use hire_ai.Prelude.{
  ℕ, ◌+◌, String, Bool, true, false, not, ◌&&◌, ◌||◌, Option, none, some, List, [], ◌∷◌, ◌++◌, any,
  map, or_else, ◌==◌, str_eq, if◌then◌else◌,
}
use hire_ai.Task.{RequestContext}
use hire_ai.Leads.{
  Text, LeadEvent, LeadActivityType, LogFields, created, updated, Lead, uuid, number, names, LeadDb,
  LeadCreateRequest, LeadUpdateRequest,
}
use hire_ai.Leads.Contact.{normalize_phone, normalize_website}
use hire_ai.Leads.Repository.{create, get_by_id, save, email_exists, phone_exists}
use hire_ai.Leads.Update.{
  LeadResult, ok, err, lead_not_found, concurrent_update, email_taken, phone_taken, value_error,
  log_all, publish, uuid_or_null, event, generate_lead_number, LeadField, set_last_activity_at,
  set_updated_by, field_name, apply_fields,
}
use hire_ai.Leads.Plan.{plan_update}

abbrev pub currency_of : ℕ → List (ℕ × String) → Option String
currency_of org_id [] = none
currency_of org_id ((o, c) ∷ rest) = if o == org_id then some c else currency_of org_id rest

-- "Fallback currency to organization default settings"
unfoldable pub fallback_currency : String → Option String → String
fallback_currency currency none = currency
fallback_currency currency (some c) =
    if (str_eq currency "" || str_eq currency "USD") && not (str_eq c "") then c else currency

-- A text that is not empty, as Python tests it.
abbrev pub truthy : Option Text → Bool
truthy (some (c ∷ cs)) = true
truthy _ = false

-- The `Lead(…)` of `create_lead`.
abbrev pub new_lead :
    RequestContext
    → (now new_id lead_number : ℕ) → (email phone : Option Text) → (currency : String)
    → LeadCreateRequest
    → Lead
new_lead ctx now new_id lead_number email phone currency request = record {
  id = new_id;
  organization_id = ctx.tenant_id;
  lead_number = lead_number;
  created_by = ctx.user_id;
  updated_by = ctx.user_id;
  assigned_to = or_else request.assigned_to (some ctx.user_id);
  first_name = request.first_name;
  last_name = request.last_name;
  company_name = request.company_name;
  job_title = request.job_title;
  email = email;
  phone = phone;
  website = normalize_website request.website;
  country = request.country;
  city = request.city;
  source = request.source;
  created_source = request.created_source;
  status = request.status;
  priority = request.priority;
  estimated_value = request.estimated_value;
  currency = currency;
  is_starred = request.is_starred;
  version = 1;
  last_activity_at = now;
  deleted_at = none;
}

-- A method's last steps: its activities, its event, the commit; an exception leaves nothing behind.
abbrev pub commit {ℓ} :
    {A : Type ℓ} → LeadDb → A → (LeadDb → LeadDb) → Option LeadDb → LeadResult A × LeadDb
commit before result finish none = (err value_error, before)
commit before result finish (some db) = (ok result, finish db)

abbrev pub lowered : (lower : Text → Text) → Option Text → Option Text
lowered lower (some (c ∷ cs)) = some (lower (c ∷ cs))
lowered lower _ = none

-- The address, when an active lead of the organization has it.
abbrev pub clashing_email :
    (lower : Text → Text) → RequestContext → Option Text → LeadDb → Option Text
clashing_email lower ctx none db = none
clashing_email lower ctx (some []) db = none
clashing_email lower ctx (some (c ∷ cs)) db =
    if email_exists lower ctx (c ∷ cs) none db then some (c ∷ cs) else none

-- The WHERE of the optimistic UPDATE.
abbrev pub locked_lead : RequestContext → (lead_id version : ℕ) → Lead → Bool
locked_lead ctx lead_id version l =
    l.id == lead_id && (l.organization_id == ctx.tenant_id && (l.version == version))

abbrev pub bump : List LeadField → (version : ℕ) → Lead → Lead
bump updates version l = record (apply_fields updates l) { version = version + 1 }

module _ (ctx : RequestContext) (now : ℕ) where
  abbrev pub numbered_lead :
      (new_id : ℕ) → (email phone : Option Text) → LeadCreateRequest → LeadDb → Lead
  numbered_lead new_id email phone request db =
      new_lead ctx now new_id (generate_lead_number ctx.tenant_id db.sequences).0 email phone
        (fallback_currency request.currency (currency_of ctx.tenant_id db.currencies)) request

  abbrev pub created_logs : Lead → List (LeadActivityType × LogFields)
  created_logs lead =
      (
        created,
        ("created_by", uuid ctx.user_id) ∷ ("assigned_to", uuid_or_null lead.assigned_to) ∷ [],
      )
      ∷ []

  abbrev pub created_event : Lead → LeadEvent
  created_event lead = event ctx "lead.created" (
      ("lead_id", uuid lead.id)
      ∷ ("lead_number", number lead.lead_number)
      ∷ ("assigned_to", uuid_or_null lead.assigned_to)
      ∷ [])

  abbrev pub with_number : LeadDb → LeadDb
  with_number db = record db { sequences = (generate_lead_number ctx.tenant_id db.sequences).1 }

  -- `create_lead` past its checks.
  unfoldable pub insert_lead :
      (new_id : ℕ)
      → (email phone : Option Text) → LeadCreateRequest
      → LeadDb
      → LeadResult Lead × LeadDb
  insert_lead new_id email phone request db =
      let lead = numbered_lead new_id email phone request db in
      commit db lead (publish (created_event lead))
        (log_all ctx now new_id (created_logs lead) (create lead (with_number db)))

  abbrev pub stamped : List LeadField → List LeadField
  stamped updates = updates ++ set_last_activity_at now ∷ set_updated_by ctx.user_id ∷ []

  abbrev pub updated_logs :
      List LeadField → List (LeadActivityType × LogFields) → List (LeadActivityType × LogFields)
  updated_logs updates logs =
      logs ++ (updated, ("updated_fields", names (map field_name updates)) ∷ []) ∷ []

  abbrev pub updated_event : (lead_id : ℕ) → List LeadField → LeadEvent
  updated_event lead_id updates =
      event ctx "lead.updated"
        (("lead_id", uuid lead_id) ∷ ("updated_fields", names (map field_name updates)) ∷ [])

  -- The UPDATE and what follows it; no row counts as a concurrent update.
  unfoldable pub write_fields :
      (lead : Lead)
      → List LeadField
      → List (LeadActivityType × LogFields)
      → LeadDb
      → LeadResult Lead × LeadDb
  write_fields lead updates logs db =
      if any (locked_lead ctx lead.id lead.version) db.leads
      then commit db (bump updates lead.version lead) (publish (updated_event lead.id updates)) (
          log_all ctx now lead.id (updated_logs updates logs)
            (save (locked_lead ctx lead.id lead.version) (bump updates lead.version) db))
      else (err concurrent_update, db)

  -- `update_lead` past its plan; without an update nothing is written.
  unfoldable pub write_update :
      (lead : Lead)
      → List LeadField × List (LeadActivityType × LogFields)
      → LeadDb
      → LeadResult Lead × LeadDb
  write_update lead ([], logs) db = (ok lead, db)
  write_update lead (field ∷ fields, logs) db = write_fields lead (stamped (field ∷ fields)) logs db

module _ (lower : Text → Text) (isdigit : ℕ → Bool) (ctx : RequestContext) (now : ℕ) where
  -- `create_lead`
  unfoldable pub create_lead : (new_id : ℕ) → LeadCreateRequest → LeadDb → LeadResult Lead × LeadDb
  create_lead new_id request db =
      let email = lowered lower request.email in
      let phone = normalize_phone isdigit request.phone in
      elim (clashing_email lower ctx email db) [
        | some taken ↦ (err (email_taken taken), db)
        | none ↦
            if truthy phone && phone_exists ctx phone none db
            then (err (phone_taken phone), db)
            else insert_lead ctx now new_id email phone request db
      ]

  -- `update_lead`
  unfoldable pub update_lead : (lead_id : ℕ) → LeadUpdateRequest → LeadDb → LeadResult Lead × LeadDb
  update_lead lead_id request db = elim (get_by_id ctx lead_id db) [
    | none ↦ (err lead_not_found, db)
    | some lead ↦
        if not (lead.version == request.version)
        then (err concurrent_update, db)
        else elim (plan_update lower isdigit ctx lead request db) [
          | err e ↦ (err e, db)
          | ok plan ↦ write_update ctx now lead plan db
        ]
  ]
