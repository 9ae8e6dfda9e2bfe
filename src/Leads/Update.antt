-- ===== src/Leads/Update.antt =====
-- The shared parts of services/lead_service.py: results, the activity log, lead numbers, and the
-- plan of `update_lead`.
use hire_ai.Prelude.{
  ℕ, ◌+◌, String, Bool, true, ◌&&◌, Option, none, some, List, [], ◌∷◌, ◌++◌, any, ◌==◌, str_eq,
  if◌then◌else◌,
}
use hire_ai.Task.{RequestContext}
use hire_ai.Leads.{
  Text, LeadStatus, LeadPriority, LeadSource, LeadActivityType, status_changed, assigned, tag_added,
  tag_removed, note_added, Lead, LogValue, null, uuid, LogFields, LeadEvent, LeadDb,
  LeadUpdateRequest,
}

pub data LeadError : Type 0 where
  lead_not_found : LeadError
  concurrent_update : LeadError
  email_taken : Text → LeadError
  phone_taken : Option Text → LeadError
  invalid_transition : LeadStatus → LeadStatus → LeadError
  tag_not_found : LeadError
  value_error : LeadError  -- raised by `_log_activity`

pub data LeadResult {ℓ} (A : Type ℓ) : Type ℓ where
  ok : A → LeadResult A
  err : LeadError → LeadResult A

-- `key in metadata`
abbrev pub has_key : String → LogFields → Bool
has_key key metadata = any (λ (k, v). str_eq k key) metadata

-- The checks of `_log_activity`.
unfoldable pub metadata_is_valid : LeadActivityType → LogFields → Bool
metadata_is_valid status_changed m = has_key "old_status" m && has_key "new_status" m
metadata_is_valid assigned m = has_key "old_assignee_id" m && has_key "new_assignee_id" m
metadata_is_valid tag_added m = has_key "tag_id" m && has_key "tag_name" m
metadata_is_valid tag_removed m = has_key "tag_id" m && has_key "tag_name" m
metadata_is_valid note_added m = has_key "note_id" m && has_key "excerpt" m
metadata_is_valid _ m = true

-- `_log_activity`, for each entry; none stands for its ValueError.
unfoldable pub log_all :
    RequestContext
    → (now lead_id : ℕ) → List (LeadActivityType × LogFields)
    → LeadDb
    → Option LeadDb
log_all ctx now lead_id [] db = some db
log_all ctx now lead_id ((activity_type, metadata) ∷ rest) db =
    if metadata_is_valid activity_type metadata
    then log_all ctx now lead_id rest (record db {
      activities =
          db.activities
          ++ record {
            lead_id = lead_id;
            actor_id = ctx.user_id;
            activity_type = activity_type;
            event_metadata = metadata;
            created_at = now;
          }
            ∷ [];
    })
    else none

abbrev pub publish : LeadEvent → LeadDb → LeadDb
publish event db = record db { published = db.published ++ event ∷ [] }

abbrev pub uuid_or_null : Option ℕ → LogValue
uuid_or_null none = null
uuid_or_null (some x) = uuid x

abbrev pub event : RequestContext → String → LogFields → LeadEvent
event ctx name payload = record {
  event_name = name;
  tenant_id = ctx.tenant_id;
  request_id = ctx.request_id;
  actor_id = ctx.user_id;
  payload = payload;
}

-- `next_lead_number` of the organization's row.
abbrev pub next_number : ℕ → List (ℕ × ℕ) → Option ℕ
next_number org_id [] = none
next_number org_id ((o, n) ∷ rest) = if o == org_id then some n else next_number org_id rest

abbrev pub put_number : ℕ → ℕ → List (ℕ × ℕ) → List (ℕ × ℕ)
put_number org_id n [] = []
put_number org_id n ((o, m) ∷ rest) =
    if o == org_id then (o, n) ∷ rest else (o, m) ∷ put_number org_id n rest

-- `_generate_lead_number`
unfoldable pub generate_lead_number : ℕ → List (ℕ × ℕ) → ℕ × List (ℕ × ℕ)
generate_lead_number org_id sequences = elim (next_number org_id sequences) [
  | none ↦ (1001, sequences ++ (org_id, 1002) ∷ [])
  | some n ↦ (n, put_number org_id (n + 1) sequences)
]

-- One assignment of the `values(…)` of the UPDATE.
pub data LeadField : Type 0 where
  set_email : Text → LeadField
  set_phone set_website : Option Text → LeadField
  set_status : LeadStatus → LeadField
  set_assigned_to : ℕ → LeadField
  set_first_name set_last_name set_company_name set_job_title : String → LeadField
  set_country set_city set_currency : String → LeadField
  set_source : LeadSource → LeadField
  set_priority : LeadPriority → LeadField
  set_estimated_value : ℕ → LeadField
  set_is_starred : Bool → LeadField
  set_last_activity_at set_updated_by : ℕ → LeadField

abbrev pub field_name : LeadField → String
field_name (set_email e) = "email"
field_name (set_phone p) = "phone"
field_name (set_website w) = "website"
field_name (set_status s) = "status"
field_name (set_assigned_to a) = "assigned_to"
field_name (set_first_name n) = "first_name"
field_name (set_last_name n) = "last_name"
field_name (set_company_name n) = "company_name"
field_name (set_job_title t) = "job_title"
field_name (set_country c) = "country"
field_name (set_city c) = "city"
field_name (set_currency c) = "currency"
field_name (set_source s) = "source"
field_name (set_priority p) = "priority"
field_name (set_estimated_value v) = "estimated_value"
field_name (set_is_starred b) = "is_starred"
field_name (set_last_activity_at n) = "last_activity_at"
field_name (set_updated_by u) = "updated_by"

unfoldable pub apply_field : LeadField → Lead → Lead
apply_field (set_email e) l = record l { email = some e }
apply_field (set_phone p) l = record l { phone = p }
apply_field (set_website w) l = record l { website = w }
apply_field (set_status s) l = record l { status = s }
apply_field (set_assigned_to a) l = record l { assigned_to = some a }
apply_field (set_first_name n) l = record l { first_name = n }
apply_field (set_last_name n) l = record l { last_name = n }
apply_field (set_company_name n) l = record l { company_name = n }
apply_field (set_job_title t) l = record l { job_title = t }
apply_field (set_country c) l = record l { country = some c }
apply_field (set_city c) l = record l { city = some c }
apply_field (set_currency c) l = record l { currency = c }
apply_field (set_source s) l = record l { source = s }
apply_field (set_priority p) l = record l { priority = p }
apply_field (set_estimated_value v) l = record l { estimated_value = v }
apply_field (set_is_starred b) l = record l { is_starred = b }
apply_field (set_last_activity_at n) l = record l { last_activity_at = n }
apply_field (set_updated_by u) l = record l { updated_by = u }

unfoldable pub apply_fields : List LeadField → Lead → Lead
apply_fields [] l = l
apply_fields (f ∷ fs) l = apply_fields fs (apply_field f l)

-- `if val is not None: updates[field] = val`
abbrev pub simple {ℓ} : {A : Type ℓ} → (A → LeadField) → Option A → List LeadField
simple set none = []
simple set (some a) = set a ∷ []

unfoldable pub simple_part : LeadUpdateRequest → List LeadField
simple_part request =
    simple set_first_name request.first_name
    ++ (simple set_last_name request.last_name
        ++ (simple set_company_name request.company_name
            ++ (simple set_job_title request.job_title
                ++ (simple set_country request.country
                    ++ (simple set_city request.city
                        ++ (simple set_source request.source
                            ++ (simple set_priority request.priority
                                ++ (simple set_estimated_value request.estimated_value
                                    ++ (simple set_currency request.currency
                                        ++ simple set_is_starred request.is_starred)))))))))
