-- ===== src/Leads/Repository.antt =====
-- repositories/lead_repository.py, lead_note_repository.py, lead_tag_repository.py and
-- lead_activity_repository.py. `lower` is lower-casing, in Python and in the database.
use hire_ai.Prelude.{
  ℕ, String, Bool, true, false, not, ◌&&◌, Option, none, some, List, [], ◌∷◌, ◌++◌, any, find,
  filter, update_first, sort_by, leb, ◌==◌, str_eq, is_some, if◌then◌else◌,
}
use hire_ai.Task.{RequestContext}
use hire_ai.Leads.{Text, Lead, LeadNote, LeadTag, LeadTagAssignment, LeadActivity, LeadDb}

abbrev pub is_lead : ℕ → Lead → Bool
is_lead lead_id l = l.id == lead_id

abbrev pub is_active : Lead → Bool
is_active l = not (is_some l.deleted_at)

abbrev pub own_lead : RequestContext → ℕ → Lead → Bool
own_lead ctx lead_id l = l.id == lead_id && (l.organization_id == ctx.tenant_id)

abbrev pub active_lead : RequestContext → ℕ → Lead → Bool
active_lead ctx lead_id l = l.id == lead_id && (l.organization_id == ctx.tenant_id && is_active l)

unfoldable pub create : Lead → LeadDb → LeadDb
create lead db = record db { leads = db.leads ++ lead ∷ [] }

unfoldable pub get_by_id : RequestContext → ℕ → LeadDb → Option Lead
get_by_id ctx lead_id db = find (active_lead ctx lead_id) db.leads

-- A change of the session's copy of the row that the test found, written at the next flush.
unfoldable pub save : (Lead → Bool) → (Lead → Lead) → LeadDb → LeadDb
save p f db = record db { leads = update_first p f db.leads }

-- `soft_delete`
unfoldable pub soft_delete : RequestContext → (now lead_id : ℕ) → LeadDb → Bool × LeadDb
soft_delete ctx now lead_id db = elim (get_by_id ctx lead_id db) [
  | none ↦ (false, db)
  | some lead ↦ (true, save (active_lead ctx lead_id) (λ l. record l { deleted_at = some now }) db)
]

unfoldable pub get_by_id_include_deleted : RequestContext → ℕ → LeadDb → Option Lead
get_by_id_include_deleted ctx lead_id db = find (own_lead ctx lead_id) db.leads

-- `restore`
unfoldable pub restore : RequestContext → ℕ → LeadDb → Option Lead × LeadDb
restore ctx lead_id db = elim (get_by_id_include_deleted ctx lead_id db) [
  | none ↦ (none, db)
  | some lead ↦ if is_active lead then (none, db) else (
    some (record lead { deleted_at = none }),
    save (own_lead ctx lead_id) (λ l. record l { deleted_at = none }) db,
  )
]

abbrev pub same_text : Text → Text → Bool
same_text [] [] = true
same_text (a ∷ cs) (b ∷ ds) = (a == b) && same_text cs ds
same_text _ _ = false

abbrev pub same_option : Option Text → Option Text → Bool
same_option none none = true
same_option (some a) (some b) = same_text a b
same_option _ _ = false

-- `exclude_id`
abbrev pub is_other : Option ℕ → Lead → Bool
is_other none l = true
is_other (some lead_id) l = not (l.id == lead_id)

-- `func.lower(Lead.email) == …`, which is not true of a NULL.
abbrev pub has_email : (lower : Text → Text) → Text → Lead → Bool
has_email lower email l = elim l.email [ none ↦ false | some e ↦ same_text (lower e) (lower email) ]

-- `email_exists`
unfoldable pub email_exists :
    (lower : Text → Text) → RequestContext → Text → (exclude_id : Option ℕ) → LeadDb → Bool
email_exists lower ctx email exclude_id db =
    any
      (λ l.
        l.organization_id == ctx.tenant_id
        && (has_email lower email l && (is_active l && is_other exclude_id l)))
      db.leads

-- `phone_exists`; a comparison with None is IS NULL.
unfoldable pub phone_exists : RequestContext → Option Text → (exclude_id : Option ℕ) → LeadDb → Bool
phone_exists ctx phone exclude_id db =
    any
      (λ l.
        l.organization_id == ctx.tenant_id
        && (same_option l.phone phone && (is_active l && is_other exclude_id l)))
      db.leads

abbrev pub owned : RequestContext → LeadDb → ℕ → Bool
owned ctx db lead_id = any (λ l. l.id == lead_id && (l.organization_id == ctx.tenant_id)) db.leads

unfoldable pub create_note : LeadNote → LeadDb → LeadDb
create_note note db = record db { notes = db.notes ++ note ∷ [] }

-- `LeadNoteRepository.list_for_lead`
unfoldable pub list_notes_for_lead : RequestContext → ℕ → LeadDb → List LeadNote
list_notes_for_lead ctx lead_id db =
    sort_by (λ m n. leb m.created_at n.created_at)
      (filter (λ n. n.lead_id == lead_id && (owned ctx db n.lead_id && not (is_some n.deleted_at)))
        db.notes)

unfoldable pub create_tag : LeadTag → LeadDb → LeadDb
create_tag tag db = record db { tags = db.tags ++ tag ∷ [] }

unfoldable pub get_tag_by_name : RequestContext → String → LeadDb → Option LeadTag
get_tag_by_name ctx name db =
    find (λ t. t.organization_id == ctx.tenant_id && str_eq t.name name) db.tags

unfoldable pub get_tag_by_id : RequestContext → ℕ → LeadDb → Option LeadTag
get_tag_by_id ctx tag_id db =
    find (λ t. t.organization_id == ctx.tenant_id && (t.id == tag_id)) db.tags

abbrev pub is_assignment : (lead_id tag_id : ℕ) → LeadTagAssignment → Bool
is_assignment lead_id tag_id a = a.lead_id == lead_id && (a.tag_id == tag_id)

-- `assign_tag`
unfoldable pub assign_tag : (lead_id tag_id user_id : ℕ) → LeadDb → Bool × LeadDb
assign_tag lead_id tag_id user_id db =
    if any (is_assignment lead_id tag_id) db.assignments then (false, db) else (
      true,
      record db {
        assignments =
            db.assignments
            ++ record { lead_id = lead_id; tag_id = tag_id; created_by = user_id } ∷ [];
      },
    )

-- `remove_tag`
unfoldable pub remove_tag : (lead_id tag_id : ℕ) → LeadDb → Bool × LeadDb
remove_tag lead_id tag_id db = (
  any (is_assignment lead_id tag_id) db.assignments,
  record db { assignments = filter (λ a. not (is_assignment lead_id tag_id a)) db.assignments },
)

-- `LeadActivityRepository.list_for_lead`
unfoldable pub list_activities_for_lead : RequestContext → ℕ → LeadDb → List LeadActivity
list_activities_for_lead ctx lead_id db =
    sort_by (λ a b. leb b.created_at a.created_at)
      (filter (λ a. a.lead_id == lead_id && owned ctx db a.lead_id) db.activities)
