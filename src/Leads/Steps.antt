-- ===== src/Leads/Steps.antt =====
-- Every call of the lead service makes one of the steps.
use mathlib.Core.Path.{subst}
use mathlib.Core.Bool.{false≢true}
use mathlib.Core.List.{append_assoc}
use hire_ai.Prelude.{
  ℕ, ◌≡◌, refl, sym, ap, ◌∙◌, inl, inr, String, Bool, true, false, not, none, some, List, [], ◌∷◌,
  ◌++◌, All, any, ◌==◌, Bool-cases, Option-cases, arith,
}
use hire_ai.Task.{RequestContext}
use hire_ai.Leads.{
  Text, LeadActivityType, Lead, LeadDb, LeadUpdateRequest, tag_added, tag_removed, note_added,
}
use hire_ai.Leads.Repository.{
  is_active, own_lead, active_lead, get_by_id, get_by_id_include_deleted, save, soft_delete,
  restore, create_note, get_tag_by_name, create_tag, get_tag_by_id, assign_tag, is_assignment,
  remove_tag,
}
use hire_ai.Leads.Update.{LeadField, set_last_activity_at, set_updated_by, apply_field}
use hire_ai.Leads.Plan.{Logs, plan_update}
use hire_ai.Leads.Fields.{both, IsEmailless}
use hire_ai.Leads.Planned.{LeadResult-cases, IsFreeEmail, plan_update-parts}
use hire_ai.Leads.Service.{stamped, locked_lead, bump, write_update, update_lead}
use hire_ai.Leads.Timeline.{
  soft_delete_lead, restore_lead, create_lead_note, create_lead_tag, with_tag, assign_tag_to_lead,
  remove_tag_from_lead,
}
use hire_ai.Leads.Commands.{
  LeadCommand, key_of, is_restore, create_cmd, update_cmd, delete_cmd, restore_cmd, note_cmd,
  tag_cmd, assign_cmd, unassign_cmd, run_command, LeadStep, kept, changed, restored, IsFree,
}
use hire_ai.Leads.Writes.{
  own_of, create-LeadStep, fields-IsFree, write_fields-LeadStep, touch_and_log-LeadStep,
}

module _ (lower : Text → Text) (isdigit : ℕ → Bool) (ctx : RequestContext) (now : ℕ)
    (db : LeadDb) where
  write_update-LeadStep :
      (lead : Lead) (emails rest us : List LeadField) (logs : Logs)
      → us ≡ emails ++ rest
      → IsFreeEmail lower isdigit ctx lead db emails
      → All IsEmailless rest
      → LeadStep lower ctx none false db (write_update ctx now lead (us, logs) db).1
  unfolding write_update apply_field
  write_update-LeadStep lead emails rest [] logs e free other = kept refl refl
  write_update-LeadStep lead emails rest (u ∷ us) logs e free other =
      write_fields-LeadStep lower isdigit ctx now db none false lead (stamped ctx now (u ∷ us)) logs
        (subst
          (λ vs. IsFree lower ctx db (locked_lead ctx lead.id lead.version) (bump vs lead.version))
          (sym (ap (stamped ctx now) e ∙ append_assoc emails rest stamp))
          (fields-IsFree lower isdigit ctx now db lead emails (rest ++ stamp) lead.version free
            (both rest stamp other ((λ l. refl), ((λ l. refl), tt)))))
    where
      stamp : List LeadField
      stamp = set_last_activity_at now ∷ set_updated_by ctx.user_id ∷ []

  update-LeadStep :
      (lead_id : ℕ) (request : LeadUpdateRequest)
      → LeadStep lower ctx none false db (update_lead lower isdigit ctx now lead_id request db).1
  unfolding update_lead
  update-LeadStep lead_id request = elim (Option-cases (get_by_id ctx lead_id db)) [
    | inl gone ↦ rw (gone, update_lead) (kept refl refl)
    | inr (lead, found) ↦
        rw (found, update_lead)
          (elim (Bool-cases (not (lead.version == request.version))) [
            | inl stale ↦ rw (stale, update_lead) (kept refl refl)
            | inr current ↦
                rw (current, update_lead)
                  (elim (LeadResult-cases (plan_update lower isdigit ctx lead request db)) [
                    | inl (e, refused) ↦ rw (refused, update_lead) (kept refl refl)
                    | inr ((us, logs), planned) ↦
                        rw (planned, update_lead)
                          (let parts =
                              plan_update-parts lower isdigit ctx lead db request us logs planned in
                            write_update-LeadStep lead parts.0 parts.1 us logs parts.2 parts.3
                              parts.4)
                  ])
          ])
  ]

  delete-LeadStep :
      (lead_id : ℕ) → LeadStep lower ctx none false db (soft_delete_lead ctx now lead_id db).1
  unfolding soft_delete_lead soft_delete save
  delete-LeadStep lead_id = elim (Option-cases (get_by_id ctx lead_id db)) [
    | inl gone ↦ rw (gone, soft_delete_lead) (kept refl refl)
    | inr (lead, found) ↦
        rw (found, soft_delete_lead)
          (rw (found, soft_delete)
            (changed (active_lead ctx lead_id) (λ l. record l { deleted_at = some now })
              (λ l h. own_of lower isdigit ctx now db l lead_id (is_active l) h)
              (λ l. (refl, refl, refl)) (λ l h. absurd (false≢true h)) (λ l h. inl refl) refl refl))
  ]

  restore-LeadStep : (lead_id : ℕ) → LeadStep lower ctx none true db (restore ctx lead_id db).1
  unfolding restore save
  restore-LeadStep lead_id = elim (Option-cases (get_by_id_include_deleted ctx lead_id db)) [
    | inl gone ↦ rw (gone, restore) (kept refl refl)
    | inr (lead, found) ↦
        rw (found, restore)
          (elim (Bool-cases (is_active lead)) [
            | inl active ↦ rw (active, restore) (kept refl refl)
            | inr deleted ↦
                rw (deleted, restore)
                  (restored (own_lead ctx lead_id) (λ l. record l { deleted_at = none })
                    (λ l h. own_row l h) (λ l. (refl, refl, refl)) refl refl refl)
          ])
  ]
    where
      own_row : (l : Lead) → own_lead ctx lead_id l ≡ true → l.organization_id ≡ ctx.tenant_id
      own_row l h = ground (arith, h)

  restore_lead_db : (lead_id : ℕ) → (restore_lead ctx now lead_id db).1 ≡ (restore ctx lead_id db).1
  unfolding restore_lead
  restore_lead_db lead_id = elim (Option-cases (restore ctx lead_id db).0) [
    | inl missing ↦ rw (missing, restore_lead) refl
    | inr (lead, e) ↦ rw (e, restore_lead) refl
  ]

  note-LeadStep :
      (new_id lead_id : ℕ) (content : Text)
      → LeadStep lower ctx none false db (create_lead_note ctx now new_id lead_id content db).1
  unfolding create_lead_note create_note
  note-LeadStep new_id lead_id content = elim (Option-cases (get_by_id ctx lead_id db)) [
    | inl gone ↦ rw (gone, create_lead_note) (kept refl refl)
    | inr (lead, found) ↦
        rw (found, create_lead_note)
          (touch_and_log-LeadStep lower isdigit ctx now db none false lead_id note_added _ _ _ refl
            refl)
  ]

  tag-LeadStep :
      (new_id : ℕ) (name color : String)
      → LeadStep lower ctx none false db (create_lead_tag ctx now new_id name color db).1
  unfolding create_lead_tag create_tag
  tag-LeadStep new_id name color = elim (Option-cases (get_tag_by_name ctx name db)) [
    | inl missing ↦ rw (missing, create_lead_tag) (kept refl refl)
    | inr (t, found) ↦ rw (found, create_lead_tag) (kept refl refl)
  ]

  with_tag-LeadStep :
      (kind : LeadActivityType) (change : LeadDb → Bool × LeadDb) (lead_id tag_id : ℕ)
      → (change db).1.leads ≡ db.leads
      → (change db).1.sequences ≡ db.sequences
      → LeadStep lower ctx none false db (with_tag ctx now kind change lead_id tag_id db).1
  unfolding with_tag
  with_tag-LeadStep kind change lead_id tag_id el es =
      elim (Option-cases (get_by_id ctx lead_id db)) [
        | inl gone ↦ rw (gone, with_tag) (kept refl refl)
        | inr (lead, found) ↦
            rw (found, with_tag)
              (elim (Option-cases (get_tag_by_id ctx tag_id db)) [
                | inl missing ↦ rw (missing, with_tag) (kept refl refl)
                | inr (t, there) ↦
                    rw (there, with_tag)
                      (elim (Bool-cases (change db).0) [
                        | inl done ↦
                            rw (done, with_tag)
                              (touch_and_log-LeadStep lower isdigit ctx now db none false lead_id
                                kind _ _ (change db).1 el es)
                        | inr idle ↦ rw (idle, with_tag) (kept refl refl)
                      ])
              ])
      ]

  assign_tag-tables :
      (lead_id tag_id : ℕ)
      → ((assign_tag lead_id tag_id ctx.user_id db).1.leads ≡ db.leads)
        × ((assign_tag lead_id tag_id ctx.user_id db).1.sequences ≡ db.sequences)
  unfolding assign_tag
  assign_tag-tables lead_id tag_id =
      elim (Bool-cases (any (is_assignment lead_id tag_id) db.assignments)) [
        | inl there ↦ rw (there, assign_tag) (refl, refl)
        | inr missing ↦ rw (missing, assign_tag) (refl, refl)
      ]

  pub run_command-LeadStep :
      (c : LeadCommand)
      → LeadStep lower ctx (key_of c) (is_restore c) db (run_command lower isdigit ctx now c db)
  unfolding run_command assign_tag_to_lead remove_tag_from_lead remove_tag
  run_command-LeadStep (create_cmd new_id request) =
      create-LeadStep lower isdigit ctx now db new_id request
  run_command-LeadStep (update_cmd lead_id request) = update-LeadStep lead_id request
  run_command-LeadStep (delete_cmd lead_id) = delete-LeadStep lead_id
  run_command-LeadStep (restore_cmd lead_id) =
      subst (LeadStep lower ctx none true db) (sym (restore_lead_db lead_id))
        (restore-LeadStep lead_id)
  run_command-LeadStep (note_cmd new_id lead_id content) = note-LeadStep new_id lead_id content
  run_command-LeadStep (tag_cmd new_id name color) = tag-LeadStep new_id name color
  run_command-LeadStep (assign_cmd lead_id tag_id) =
      with_tag-LeadStep tag_added (assign_tag lead_id tag_id ctx.user_id) lead_id tag_id
        (assign_tag-tables lead_id tag_id).0 (assign_tag-tables lead_id tag_id).1
  run_command-LeadStep (unassign_cmd lead_id tag_id) =
      with_tag-LeadStep tag_removed (remove_tag lead_id tag_id) lead_id tag_id refl refl
