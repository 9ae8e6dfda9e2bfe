-- ===== src/Leads/Commands.antt =====
-- The calls of the lead service, and what each may do to the tables of leads and numbers.
use hire_ai.Prelude.{
  ℕ, ◌≡◌, ◌⊎◌, String, Bool, true, false, Option, none, some, List, [], ◌∷◌, ◌++◌, update_first,
}
use hire_ai.Task.{RequestContext}
use hire_ai.Leads.{Text, Lead, LeadDb, LeadCreateRequest, LeadUpdateRequest}
use hire_ai.Leads.Repository.{is_active, email_exists}
use hire_ai.Leads.Update.{generate_lead_number}
use hire_ai.Leads.Service.{clashing_email, create_lead, update_lead}
use hire_ai.Leads.Timeline.{
  soft_delete_lead, restore_lead, create_lead_note, create_lead_tag, assign_tag_to_lead,
  remove_tag_from_lead,
}

pub data LeadCommand : Type 0 where
  create_cmd : (new_id : ℕ) → LeadCreateRequest → LeadCommand
  update_cmd : (lead_id : ℕ) → LeadUpdateRequest → LeadCommand
  delete_cmd restore_cmd : (lead_id : ℕ) → LeadCommand
  note_cmd : (new_id lead_id : ℕ) → Text → LeadCommand
  tag_cmd : (new_id : ℕ) → (name color : String) → LeadCommand
  assign_cmd unassign_cmd : (lead_id tag_id : ℕ) → LeadCommand

-- The key of the lead that the command would create.
abbrev pub key_of : LeadCommand → Option ℕ
key_of (create_cmd new_id request) = some new_id
key_of _ = none

abbrev pub is_restore : LeadCommand → Bool
is_restore (restore_cmd lead_id) = true
is_restore _ = false

-- A call: who makes it, when, and of what.
pub record LeadCall : Type 0 where
  pub ctx : RequestContext
  pub now : ℕ
  pub command : LeadCommand

module _ (lower : Text → Text) (isdigit : ℕ → Bool) where
  unfoldable pub run_command : RequestContext → ℕ → LeadCommand → LeadDb → LeadDb
  run_command ctx now (create_cmd new_id request) db =
      (create_lead lower isdigit ctx now new_id request db).1
  run_command ctx now (update_cmd lead_id request) db =
      (update_lead lower isdigit ctx now lead_id request db).1
  run_command ctx now (delete_cmd lead_id) db = (soft_delete_lead ctx now lead_id db).1
  run_command ctx now (restore_cmd lead_id) db = (restore_lead ctx now lead_id db).1
  run_command ctx now (note_cmd new_id lead_id content) db =
      (create_lead_note ctx now new_id lead_id content db).1
  run_command ctx now (tag_cmd new_id name color) db =
      (create_lead_tag ctx now new_id name color db).1
  run_command ctx now (assign_cmd lead_id tag_id) db =
      (assign_tag_to_lead ctx now lead_id tag_id db).1
  run_command ctx now (unassign_cmd lead_id tag_id) db =
      (remove_tag_from_lead ctx now lead_id tag_id db).1

  abbrev pub run_call : LeadCall → LeadDb → LeadDb
  run_call c db = run_command c.ctx c.now c.command db

  abbrev pub run_calls : List LeadCall → LeadDb → LeadDb
  run_calls [] db = db
  run_calls (c ∷ cs) db = run_calls cs (run_call c db)

-- The keys of a row.
abbrev pub SameKeys : (Lead → Lead) → Type 0
SameKeys f =
    (l : Lead)
    → ((f l).id ≡ l.id)
      × ((f l).organization_id ≡ l.organization_id)
      × ((f l).lead_number ≡ l.lead_number)

-- The rows that the test finds are the caller's.
abbrev pub IsOwn : RequestContext → (Lead → Bool) → Type 0
IsOwn ctx p = (l : Lead) → p l ≡ true → l.organization_id ≡ ctx.tenant_id

-- The rewritten row has its old address or one that no other active lead has.
abbrev pub IsFree : (Text → Text) → RequestContext → LeadDb → (Lead → Bool) → (Lead → Lead) → Type 0
IsFree lower ctx db p f =
    (l : Lead)
    → p l ≡ true
    → ((f l).email ≡ l.email)
      ⊎ ((e : Text) × ((f l).email ≡ some e) × (email_exists lower ctx e (some l.id) db ≡ false))

-- What a call may do: nothing to the leads, one new lead, one row rewritten, or one row
-- restored. A new lead has the given key, and rows are restored only `back`.
pub data LeadStep (lower : Text → Text) (ctx : RequestContext) (key : Option ℕ) (back : Bool)
    (db db' : LeadDb) : Type 0 where
  kept : db'.leads ≡ db.leads → db'.sequences ≡ db.sequences → LeadStep lower ctx key back db db'
  added :
      (lead : Lead)
      → key ≡ some lead.id
      → lead.organization_id ≡ ctx.tenant_id
      → lead.lead_number ≡ (generate_lead_number ctx.tenant_id db.sequences).0
      → clashing_email lower ctx lead.email db ≡ none
      → db'.leads ≡ db.leads ++ lead ∷ []
      → db'.sequences ≡ (generate_lead_number ctx.tenant_id db.sequences).1
      → LeadStep lower ctx key back db db'
  changed :
      (p : Lead → Bool) (f : Lead → Lead)
      → IsOwn ctx p
      → SameKeys f
      → ((l : Lead) → is_active (f l) ≡ true → is_active l ≡ true)
      → IsFree lower ctx db p f
      → db'.leads ≡ update_first p f db.leads
      → db'.sequences ≡ db.sequences
      → LeadStep lower ctx key back db db'
  restored :
      (p : Lead → Bool) (f : Lead → Lead)
      → IsOwn ctx p
      → SameKeys f
      → back ≡ true
      → db'.leads ≡ update_first p f db.leads
      → db'.sequences ≡ db.sequences
      → LeadStep lower ctx key back db db'
