-- ===== src/Leads/Writes.antt =====
-- What an insertion and the rewriting of a row do, each with its activities.
use mathlib.Core.Option.{none-ne-some, some-injective}
use hire_ai.Prelude.{
  ℕ, ◌≡◌, refl, sym, ap, ◌∙◌, inl, inr, Bool, true, false, not, ◌&&◌, Option, none, some, List, [],
  ◌∷◌, ◌++◌, All, any, update_first, is_some, ◌==◌, Bool-cases, Option-cases, arith,
}
use hire_ai.Task.{RequestContext}
use hire_ai.Leads.{Text, LeadActivityType, LogFields, Lead, LeadDb, LeadCreateRequest}
use hire_ai.Leads.Contact.{normalize_phone}
use hire_ai.Leads.Repository.{is_active, active_lead, email_exists, phone_exists, create, save}
use hire_ai.Leads.Update.{log_all, metadata_is_valid, publish, LeadField, apply_field, apply_fields}
use hire_ai.Leads.Plan.{Logs}
use hire_ai.Leads.Fields.{SameRow, apply_fields-SameRow, apply_fields-emailless, IsEmailless}
use hire_ai.Leads.Planned.{IsFreeEmail}
use hire_ai.Leads.Service.{
  commit, lowered, clashing_email, truthy, numbered_lead, created_logs, created_event, with_number,
  updated_logs, updated_event, write_fields, insert_lead, create_lead, locked_lead, bump,
}
use hire_ai.Leads.Timeline.{touch, touch_and_log}
use hire_ai.Leads.Commands.{LeadStep, kept, added, changed, IsFree}

log_all-tables :
    (ctx : RequestContext) (now lead_id : ℕ) (logs : Logs) (db db' : LeadDb)
    → log_all ctx now lead_id logs db ≡ some db'
    → (db'.leads ≡ db.leads) × (db'.sequences ≡ db.sequences)
unfolding log_all
log_all-tables ctx now lead_id [] db db' e = (
  ap (λ (x : LeadDb). x.leads) (sym (some-injective _ _ e)),
  ap (λ (x : LeadDb). x.sequences) (sym (some-injective _ _ e)),
)
log_all-tables ctx now lead_id ((kind, metadata) ∷ logs) db db' e =
    elim (Bool-cases (metadata_is_valid kind metadata)) [
      | inl valid ↦ log_all-tables ctx now lead_id logs _ db' (rw (valid, log_all) at e)
      | inr invalid ↦ absurd (none-ne-some _ (rw (invalid, log_all) at e))
    ]

commit_holds {ℓ} :
    {A : Type ℓ} (P : LeadDb → Type 0) (before : LeadDb) (result : A) (finish : LeadDb → LeadDb)
    (o : Option LeadDb)
    → P before
    → ((db' : LeadDb) → o ≡ some db' → P (finish db'))
    → P (commit before result finish o).1
commit_holds P before result finish none h k = h
commit_holds P before result finish (some db') h k = k db' refl

module _ (lower : Text → Text) (isdigit : ℕ → Bool) (ctx : RequestContext) (now : ℕ)
    (db : LeadDb) where
  pub own_of :
      (l : Lead) (lead_id : ℕ) (b : Bool)
      → (l.id == lead_id && (l.organization_id == ctx.tenant_id && b)) ≡ true
      → l.organization_id ≡ ctx.tenant_id
  own_of l lead_id b h = ground (arith, h)

  insert-LeadStep :
      (new_id : ℕ) (email phone : Option Text) (request : LeadCreateRequest)
      → clashing_email lower ctx email db ≡ none
      → LeadStep lower ctx
          (some new_id)
          false
          db
          (insert_lead ctx now new_id email phone request db).1
  unfolding insert_lead create
  insert-LeadStep new_id email phone request free =
      let lead : Lead = numbered_lead ctx now new_id email phone request db in
      commit_holds (LeadStep lower ctx (some new_id) false db) db lead
        (publish (created_event ctx now lead))
        (log_all ctx now new_id (created_logs ctx now lead) (create lead (with_number ctx now db)))
        (kept refl refl)
        (λ db' e.
          let tables =
            log_all-tables ctx now new_id (created_logs ctx now lead)
              (create lead (with_number ctx now db)) db' e in
          added lead refl refl refl free tables.0 tables.1)

  pub create-LeadStep :
      (new_id : ℕ) (request : LeadCreateRequest)
      → LeadStep lower ctx
          (some new_id)
          false
          db
          (create_lead lower isdigit ctx now new_id request db).1
  unfolding create_lead
  create-LeadStep new_id request =
      elim (Option-cases (clashing_email lower ctx (lowered lower request.email) db)) [
        | inr (taken, e) ↦ rw (e, create_lead) (kept refl refl)
        | inl free ↦
            rw (free, create_lead)
              (elim (Bool-cases (
                truthy (normalize_phone isdigit request.phone)
                && phone_exists ctx (normalize_phone isdigit request.phone) none db)) [
                  | inl taken ↦ rw (taken, create_lead) (kept refl refl)
                  | inr unused ↦
                      rw (unused, create_lead)
                        (insert-LeadStep new_id (lowered lower request.email)
                          (normalize_phone isdigit request.phone) request free)
                ])
      ]

  -- A change of the row found by a test, then activities and an event.
  pub touch_and_log-LeadStep {ℓ} :
      {A : Type ℓ} (key : Option ℕ) (back : Bool) (lead_id : ℕ) (kind : LeadActivityType)
      (metadata : LogFields) (result : A) (db₁ : LeadDb)
      → db₁.leads ≡ db.leads
      → db₁.sequences ≡ db.sequences
      → LeadStep lower ctx key back db (touch_and_log ctx now lead_id kind metadata result db db₁).1
  unfolding touch_and_log save
  touch_and_log-LeadStep key back lead_id kind metadata result db₁ el es =
      commit_holds (LeadStep lower ctx key back db) db result (λ x. x)
        (log_all ctx now lead_id ((kind, metadata) ∷ [])
          (save (active_lead ctx lead_id) (touch ctx now) db₁))
        (kept refl refl)
        (λ db' e.
          let tables =
            log_all-tables ctx now lead_id ((kind, metadata) ∷ [])
              (save (active_lead ctx lead_id) (touch ctx now) db₁) db' e in
          changed (active_lead ctx lead_id) (touch ctx now)
            (λ l h. own_of l lead_id (is_active l) h) (λ l. (refl, refl, refl)) (λ l h. h)
            (λ l h. inl refl)
            (tables.0 ∙ ap (update_first (active_lead ctx lead_id) (touch ctx now)) el)
            (tables.1 ∙ es))

  pub fields-IsFree :
      (lead : Lead) (emails rest : List LeadField) (version : ℕ)
      → IsFreeEmail lower isdigit ctx lead db emails
      → All IsEmailless rest
      → IsFree lower ctx db (locked_lead ctx lead.id version) (bump (emails ++ rest) version)
  unfolding apply_fields apply_field
  fields-IsFree lead emails rest version (inl nil) h l found =
      inl (ap (λ us. (apply_fields (us ++ rest) l).email) nil ∙ apply_fields-emailless rest h l)
  fields-IsFree lead emails rest version (inr (e, one, free)) h l found = inr (
    e,
    ap (λ us. (apply_fields (us ++ rest) l).email) one
        ∙ apply_fields-emailless rest h (record l { email = some e }),
    ap (λ n. email_exists lower ctx e (some n) db) (same_id l.id lead.id _ found) ∙ free,
  )
    where
      same_id : (m n : ℕ) (b : Bool) → (m == n && b) ≡ true → m ≡ n
      same_id m n b e = ground (arith, e)

  bump-SameRow : (us : List LeadField) (version : ℕ) (l : Lead) → SameRow l (bump us version l)
  bump-SameRow us version l = apply_fields-SameRow us l

  pub write_fields-LeadStep :
      (key : Option ℕ) (back : Bool) (lead : Lead) (updates : List LeadField) (logs : Logs)
      → IsFree lower ctx db (locked_lead ctx lead.id lead.version) (bump updates lead.version)
      → LeadStep lower ctx key back db (write_fields ctx now lead updates logs db).1
  unfolding write_fields save
  write_fields-LeadStep key back lead updates logs free =
      let p : Lead → Bool = locked_lead ctx lead.id lead.version in
      let f : Lead → Lead = bump updates lead.version in
      elim (Bool-cases (any p db.leads)) [
        | inr gone ↦ rw (gone, write_fields) (kept refl refl)
        | inl there ↦
            rw (there, write_fields)
              (commit_holds (LeadStep lower ctx key back db) db (f lead)
                (publish (updated_event ctx now lead.id updates))
                (log_all ctx now lead.id (updated_logs ctx now updates logs) (save p f db))
                (kept refl refl)
                (λ db' e.
                  let tables =
                    log_all-tables ctx now lead.id (updated_logs ctx now updates logs) (save p f db)
                      db' e in
                  changed p f (λ l h. own_of l lead.id (l.version == lead.version) h)
                    (λ l. (
                      (bump-SameRow updates lead.version l).0,
                      (bump-SameRow updates lead.version l).1,
                      (bump-SameRow updates lead.version l).2,
                    ))
                    (λ l h.
                      ap (λ o. not (is_some o)) (sym (bump-SameRow updates lead.version l).3) ∙ h)
                    free tables.0 tables.1))
      ]
