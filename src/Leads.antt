-- ===== src/Leads.antt =====
-- The leads: models/lead.py, lead_note.py, lead_tag.py, lead_activity.py, organization_sequence.py,
-- schemas/lead.py, and the lead enums of models/enums.py. E-mail addresses, telephone numbers and
-- websites are lists of code points; other texts are strings, and amounts are cents.
pub mod Contact
pub mod Repository
pub mod Update
pub mod Plan
mod Fields
mod Planned
pub mod Service
pub mod Timeline
pub mod Commands
mod Writes
mod Steps
pub mod Numbers
pub mod Emails
pub mod Tenancy
mod Tests
use hire_ai.Prelude.{ℕ, String, Bool, true, false, Option, List}
use hire_ai.Task.{Task}

-- A text as its code points.
abbrev pub Text : Type 0
Text = List ℕ

pub data LeadStatus : Type 0 where
  new contacted meeting_scheduled qualified proposal_sent : LeadStatus
  negotiation won lost archived : LeadStatus

pub data LeadPriority : Type 0 where
  low medium high urgent : LeadPriority

pub data LeadSource : Type 0 where
  manual csv hubspot zoho salesforce website facebook google : LeadSource
  referral linkedin whatsapp email api other : LeadSource

pub data CreatedSource : Type 0 where
  manual_ui csv_import api webhook ai_agent : CreatedSource

pub data LeadActivityType : Type 0 where
  created updated status_changed owner_changed assigned : LeadActivityType
  tag_added tag_removed note_added : LeadActivityType

-- `Lead`
pub record Lead : Type 0 where
  pub id : ℕ
  pub organization_id : ℕ
  pub lead_number : ℕ
  pub created_by : ℕ
  pub updated_by : ℕ
  pub assigned_to : Option ℕ
  pub first_name : String
  pub last_name : String
  pub company_name : String
  pub job_title : String
  pub email : Option Text
  pub phone : Option Text
  pub website : Option Text
  pub country : Option String
  pub city : Option String
  pub source : LeadSource
  pub created_source : CreatedSource
  pub status : LeadStatus
  pub priority : LeadPriority
  pub estimated_value : ℕ
  pub currency : String
  pub is_starred : Bool
  pub version : ℕ
  pub last_activity_at : ℕ
  pub deleted_at : Option ℕ

pub record LeadNote : Type 0 where
  pub id : ℕ
  pub lead_id : ℕ
  pub author_id : ℕ
  pub content : Text
  pub created_at : ℕ
  pub deleted_at : Option ℕ

pub record LeadTag : Type 0 where
  pub id : ℕ
  pub organization_id : ℕ
  pub name : String
  pub color : String

pub record LeadTagAssignment : Type 0 where
  pub lead_id : ℕ
  pub tag_id : ℕ
  pub created_by : ℕ

-- The values that an activity or an event carries.
pub data LogValue : Type 0 where
  null : LogValue
  uuid number : ℕ → LogValue
  string : String → LogValue
  excerpt : Text → LogValue
  status_value : LeadStatus → LogValue
  names : List String → LogValue

abbrev pub LogFields : Type 0
LogFields = List (String × LogValue)

-- `LeadActivity`; every writer passes `ActorType.USER` and metadata version 1.
pub record LeadActivity : Type 0 where
  pub lead_id : ℕ
  pub actor_id : ℕ
  pub activity_type : LeadActivityType
  pub event_metadata : LogFields
  pub created_at : ℕ

-- The `DomainEvent` that the service publishes.
pub record LeadEvent : Type 0 where
  pub event_name : String
  pub tenant_id : ℕ
  pub request_id : String
  pub actor_id : ℕ
  pub payload : LogFields

pub record LeadDb : Type 0 where
  pub leads : List Lead
  pub notes : List LeadNote
  pub tags : List LeadTag
  pub assignments : List LeadTagAssignment
  pub activities : List LeadActivity
  pub sequences : List (ℕ × ℕ)  -- `organization_sequences`
  pub currencies : List (ℕ × String)  -- of `organization_settings`
  pub tasks : List Task
  pub published : List LeadEvent

-- `LeadCreateRequest`
pub record LeadCreateRequest : Type 0 where
  pub first_name : String
  pub last_name : String
  pub company_name : String
  pub job_title : String
  pub email : Option Text
  pub phone : Option Text
  pub website : Option Text
  pub country : Option String
  pub city : Option String
  pub source : LeadSource
  pub created_source : CreatedSource
  pub status : LeadStatus
  pub priority : LeadPriority
  pub estimated_value : ℕ
  pub currency : String
  pub is_starred : Bool
  pub assigned_to : Option ℕ

-- `LeadUpdateRequest`
pub record LeadUpdateRequest : Type 0 where
  pub version : ℕ
  pub first_name : Option String
  pub last_name : Option String
  pub company_name : Option String
  pub job_title : Option String
  pub email : Option Text
  pub phone : Option Text
  pub website : Option Text
  pub country : Option String
  pub city : Option String
  pub source : Option LeadSource
  pub status : Option LeadStatus
  pub priority : Option LeadPriority
  pub estimated_value : Option ℕ
  pub currency : Option String
  pub is_starred : Option Bool
  pub assigned_to : Option ℕ

abbrev pub same_status : LeadStatus → LeadStatus → Bool
same_status new new = true
same_status contacted contacted = true
same_status meeting_scheduled meeting_scheduled = true
same_status qualified qualified = true
same_status proposal_sent proposal_sent = true
same_status negotiation negotiation = true
same_status won won = true
same_status lost lost = true
same_status archived archived = true
same_status _ _ = false

-- `_VALID_TRANSITIONS`
abbrev pub valid_transitions : LeadStatus → LeadStatus → Bool
valid_transitions new contacted = true
valid_transitions new lost = true
valid_transitions contacted meeting_scheduled = true
valid_transitions contacted lost = true
valid_transitions meeting_scheduled qualified = true
valid_transitions meeting_scheduled lost = true
valid_transitions qualified proposal_sent = true
valid_transitions qualified lost = true
valid_transitions proposal_sent negotiation = true
valid_transitions proposal_sent lost = true
valid_transitions negotiation won = true
valid_transitions negotiation lost = true
valid_transitions won archived = true
valid_transitions lost archived = true
valid_transitions _ _ = false
