-- ===== src/Leads/Timeline.antt =====
-- services/lead_service.py: deletion, restoration, notes, tags and the timeline.
use hire_ai.Prelude.{take, ℕ, String, Bool, none, some, List, [], ◌∷◌, map, if◌then◌else◌}
use hire_ai.Task.{RequestContext}
use hire_ai.Task.Store.{Db, soft_delete_for_lead}
use hire_ai.Leads.{
  Text, tag_added, tag_removed, note_added, LeadActivityType, LogFields, Lead, LeadNote, LeadTag,
  LeadActivity, uuid, string, excerpt, LeadDb,
}
use hire_ai.Leads.Repository.{
  active_lead, get_by_id, save, soft_delete, restore, create_note, list_notes_for_lead, create_tag,
  get_tag_by_name, get_tag_by_id, assign_tag, remove_tag, list_activities_for_lead,
}
use hire_ai.Leads.Update.{
  LeadResult, ok, err, lead_not_found, tag_not_found, log_all, publish, event,
}
use hire_ai.Leads.Service.{commit}

-- The tables as the task repository sees them.
abbrev pub task_view : LeadDb → Db
task_view db = record {
  leads =
      map
        (λ (l : Lead). record {
          id = l.id;
          organization_id = l.organization_id;
          deleted_at = l.deleted_at;
        })
        db.leads;
  tasks = db.tasks;
  activities = [];
  published = [];
}

module _ (ctx : RequestContext) (now : ℕ) where
  -- `soft_delete_lead`
  unfoldable pub soft_delete_lead : (lead_id : ℕ) → LeadDb → LeadResult (Unit {0}) × LeadDb
  soft_delete_lead lead_id db = elim (get_by_id ctx lead_id db) [
    | none ↦ (err lead_not_found, db)
    | some lead ↦
        let deleted = (soft_delete ctx now lead_id db).1 in
        (
          ok tt,
          publish (event ctx "lead.deleted" (("lead_id", uuid lead_id) ∷ [])) (record deleted {
            tasks = (soft_delete_for_lead ctx now lead_id (task_view deleted)).1.tasks;
          }),
        )
  ]

  -- `restore_lead`
  unfoldable pub restore_lead : (lead_id : ℕ) → LeadDb → LeadResult Lead × LeadDb
  restore_lead lead_id db =
      let restored = restore ctx lead_id db in
      elim restored.0 [
        | none ↦ (err lead_not_found, restored.1)
        | some lead ↦ (ok lead, restored.1)
      ]

  -- "Update last_activity_at", without a new version.
  abbrev pub touch : Lead → Lead
  touch l = record l { last_activity_at = now; updated_by = ctx.user_id }

  -- The touched lead and one activity, then the commit.
  unfoldable pub touch_and_log {ℓ} :
      {A : Type ℓ}
      → (lead_id : ℕ) → LeadActivityType
      → LogFields
      → A
      → (before db : LeadDb) → LeadResult A × LeadDb
  touch_and_log lead_id activity_type metadata result before db =
      commit before result (λ x. x)
        (log_all ctx now lead_id ((activity_type, metadata) ∷ [])
          (save (active_lead ctx lead_id) touch db))

  -- `create_note`
  unfoldable pub create_lead_note :
      (new_id lead_id : ℕ) → Text → LeadDb → LeadResult LeadNote × LeadDb
  create_lead_note new_id lead_id content db = elim (get_by_id ctx lead_id db) [
    | none ↦ (err lead_not_found, db)
    | some lead ↦
        let note : LeadNote = record {
          id = new_id;
          lead_id = lead_id;
          author_id = ctx.user_id;
          content = content;
          created_at = now;
          deleted_at = none;
        } in
        touch_and_log lead_id note_added
          (("note_id", uuid new_id) ∷ ("excerpt", excerpt (take 100 content)) ∷ []) note db
          (create_note note db)
  ]

  -- `list_notes`
  unfoldable pub list_notes : (lead_id : ℕ) → LeadDb → LeadResult (List LeadNote)
  list_notes lead_id db = elim (get_by_id ctx lead_id db) [
    | none ↦ err lead_not_found
    | some lead ↦ ok (list_notes_for_lead ctx lead_id db)
  ]

  -- `create_tag`
  unfoldable pub create_lead_tag :
      (new_id : ℕ) → (name color : String) → LeadDb → LeadResult LeadTag × LeadDb
  create_lead_tag new_id name color db = elim (get_tag_by_name ctx name db) [
    | some existing ↦ (ok existing, db)
    | none ↦
        let tag : LeadTag = record {
          id = new_id;
          organization_id = ctx.tenant_id;
          name = name;
          color = color;
        } in
        (ok tag, create_tag tag db)
  ]

  -- The common text of the two methods on tags: `change` is the repository's.
  unfoldable pub with_tag :
      LeadActivityType
      → (LeadDb → Bool × LeadDb)
      → (lead_id tag_id : ℕ) → LeadDb
      → LeadResult (Unit {0}) × LeadDb
  with_tag activity_type change lead_id tag_id db = elim (get_by_id ctx lead_id db) [
    | none ↦ (err lead_not_found, db)
    | some lead ↦ elim (get_tag_by_id ctx tag_id db) [
      | none ↦ (err tag_not_found, db)
      | some tag ↦
          let changed = change db in
          if changed.0
          then touch_and_log lead_id activity_type
              (("tag_id", uuid tag_id) ∷ ("tag_name", string tag.name) ∷ []) tt db changed.1
          else (ok tt, db)
    ]
  ]

  -- `assign_tag_to_lead`
  unfoldable pub assign_tag_to_lead : (lead_id tag_id : ℕ) → LeadDb → LeadResult (Unit {0}) × LeadDb
  assign_tag_to_lead lead_id tag_id db =
      with_tag tag_added (assign_tag lead_id tag_id ctx.user_id) lead_id tag_id db

  -- `remove_tag_from_lead`
  unfoldable pub remove_tag_from_lead :
      (lead_id tag_id : ℕ) → LeadDb → LeadResult (Unit {0}) × LeadDb
  remove_tag_from_lead lead_id tag_id db =
      with_tag tag_removed (remove_tag lead_id tag_id) lead_id tag_id db

  -- `list_activities`
  unfoldable pub list_activities : (lead_id : ℕ) → LeadDb → LeadResult (List LeadActivity)
  list_activities lead_id db = elim (get_by_id ctx lead_id db) [
    | none ↦ err lead_not_found
    | some lead ↦ ok (list_activities_for_lead ctx lead_id db)
  ]
